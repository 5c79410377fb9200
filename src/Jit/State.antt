-- ===== src/Jit/State.antt =====
-- `struct jit_state` (tools/ubpf/vm/ubpf_jit_x86_64.h), and the functions that write to it.
use ve_bpf.Base.{ℕ, ◌+◌, Bool, List, [], ◌∷◌, ◌++◌, leb, if◌then◌else◌, length}
use ve_bpf.Base.Word.{u32}
use ve_bpf.Ebpf.Encoding.{to_bytes}

-- `struct jump`.
pub record Jump : Type 0 where
  pub offset_loc : ℕ
  pub target_pc : ℕ

-- `buf` holds the bytes up to `offset`; `jumps` the entries up to `num_jumps`.
pub record Jit : Type 0 where
  pub buf : List ℕ
  pub size : ℕ
  pub pc_locs : ℕ → ℕ
  pub exit_loc : ℕ
  pub div_by_zero_loc : ℕ
  pub jumps : List Jump

abbrev pub offset : Jit → ℕ
offset st = length st.buf

-- What writing comes to: a new state, the error of `translate` at an instruction, or a failed
-- `assert`.
pub data Emitted : Type 0 where
  emitted : Jit → Emitted
  unknown_instruction : ℕ → Emitted
  aborted : Emitted

abbrev pub Emit : Type 0
Emit = Jit → Emitted

abbrev pub and_then : Emitted → Emit → Emitted
and_then (emitted st) k = k st
and_then (unknown_instruction i) k = unknown_instruction i
and_then aborted k = aborted

infixr 5 ◌>>◌
abbrev pub ◌>>◌ : Emit → Emit → Emit
◌>>◌ m k st = and_then (m st) k

abbrev pub skip : Emit
skip st = emitted st

-- `if (b) …`, and an `assert`.
abbrev pub when : Bool → Emit → Emit
when b m st = if b then m st else emitted st

abbrev pub assert : Bool → Emit
assert b st = if b then emitted st else aborted

-- `emit_bytes`. With `size` at least `len` the difference in its `assert` does not wrap.
unfoldable pub emit_bytes : List ℕ → Emit
emit_bytes bytes st =
    if leb (offset st + length bytes) st.size
    then emitted (record st { buf = st.buf ++ bytes })
    else aborted

-- `emit1`, `emit2`, `emit4`, `emit8`: the low bytes of the argument.
unfoldable pub emit1 : ℕ → Emit
unfolding emit_bytes to_bytes
emit1 x = emit_bytes (to_bytes 1 x)

unfoldable pub emit2 : ℕ → Emit
unfolding emit_bytes to_bytes
emit2 x = emit_bytes (to_bytes 2 x)

unfoldable pub emit4 : ℕ → Emit
unfolding emit_bytes to_bytes
emit4 x = emit_bytes (to_bytes 4 x)

unfoldable pub emit8 : ℕ → Emit
unfolding emit_bytes to_bytes
emit8 x = emit_bytes (to_bytes 8 x)

-- `emit_jump_offset`: four bytes to be filled in later.
unfoldable pub emit_jump_offset : ℕ → Emit
unfolding emit4
emit_jump_offset target_pc st =
    let jump : Jump = record { offset_loc = offset st; target_pc = u32 target_pc } in
    emit4 0 (record st { jumps = st.jumps ++ jump ∷ [] })
