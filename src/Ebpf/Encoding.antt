-- ===== src/Ebpf/Encoding.antt =====
-- Little-endian bytes, and the eight bytes of a `struct ebpf_inst` (tools/ubpf/vm/ebpf.h) as the
-- compiler lays it out on the little-endian host: `memcpy` in `ubpf_load` reads them as the fields.
pub mod RoundTrip
use mathlib.Core.Option
use ve_bpf.Base.{ℕ, zero, suc, ◌+◌, ◌*◌, ◌/◌, ◌%◌, List, [], ◌∷◌, ◌++◌, Option, none, some}
use ve_bpf.Ebpf.{Inst}

-- The `n` low bytes of a word, lowest first, and the word of such bytes.
unfoldable pub to_bytes : ℕ → ℕ → List ℕ
to_bytes zero x = []
to_bytes (suc n) x = (x % 256) ∷ to_bytes n (x / 256)

unfoldable pub of_bytes : List ℕ → ℕ
of_bytes [] = 0
of_bytes (b ∷ bs) = b + 256 * of_bytes bs

-- The instruction that eight bytes of code are read as.
unfoldable pub inst_of_bytes : ℕ → ℕ → ℕ → ℕ → ℕ → ℕ → ℕ → ℕ → Inst
unfolding of_bytes
inst_of_bytes b0 b1 b2 b3 b4 b5 b6 b7 = record {
  opcode = b0;
  dst = b1 % 16;
  src = b1 / 16;
  offset = of_bytes (b2 ∷ b3 ∷ []);
  imm = of_bytes (b4 ∷ b5 ∷ b6 ∷ b7 ∷ []);
}

-- The bytes of an instruction.
unfoldable pub inst_bytes : Inst → List ℕ
unfolding to_bytes
inst_bytes i = i.opcode ∷ (i.dst + 16 * i.src) ∷ (to_bytes 2 i.offset ++ to_bytes 4 i.imm)

-- The array of instructions that `memcpy` makes of the code; `none` if a part is left over.
unfoldable pub insts_of_bytes : List ℕ → Option (List Inst)
unfolding inst_of_bytes
insts_of_bytes [] = some []
insts_of_bytes (b0 ∷ b1 ∷ b2 ∷ b3 ∷ b4 ∷ b5 ∷ b6 ∷ b7 ∷ rest) =
    Option.map (λ is. inst_of_bytes b0 b1 b2 b3 b4 b5 b6 b7 ∷ is) (insts_of_bytes rest)
insts_of_bytes _ = none

unfoldable pub insts_bytes : List Inst → List ℕ
insts_bytes [] = []
insts_bytes (i ∷ is) = inst_bytes i ++ insts_bytes is
