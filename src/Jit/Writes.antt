-- ===== src/Jit/Writes.antt =====
-- About the bytes that the functions of tools/ubpf/vm/ubpf_jit_x86_64.h append to the buffer.
use mathlib.Core.Path.{subst}
use mathlib.Core.List.{append_assoc, append-nil}
use ve_bpf.Base.{
  ℕ, ◌+◌, ◌*◌, ◌/◌, ◌%◌, ◌^◌, ◌<◌, ◌≡◌, refl, sym, ap, ◌∙◌, bit_and, bit_or, Bool, true, false,
  ◌||◌, List, [], ◌∷◌, ◌++◌, leb, ◌==◌, ==_iff, if◌then◌else◌, arith,
}
use ve_bpf.Base.Table.{holds_below, holds_below-at}
use ve_bpf.Ebpf.Encoding.{to_bytes}
use ve_bpf.Jit.State.{Jit, emitted, Emit, ◌>>◌, when, assert, skip, emit_bytes, emit1, emit4, emit8}
use ve_bpf.Jit.Keeps.{>>-emitted, emit_bytes-emitted}
use ve_bpf.Jit.Emit.{
  bit, top_bit, emit_modrm, emit_modrm_reg2reg, emit_rex, emit_basic_rex, emit_alu32,
  emit_alu32_imm32, emit_alu32_imm8, emit_alu64, emit_alu64_imm32, emit_alu64_imm8,
}

-- Where `m` succeeds, it appends these bytes.
pub record Writes (m : Emit) (bytes : List ℕ) : Type 0 where
  pub writes : (s s' : Jit) → m s ≡ emitted s' → s'.buf ≡ s.buf ++ bytes

pub Writes->> : {m k : Emit} {a b : List ℕ} → Writes m a → Writes k b → Writes (m >> k) (a ++ b)
Writes->> {m} {k} {a} {b} p q = record {
  writes = λ s s' e.
      let (t, f, g) = >>-emitted m k s s' e in
      q.writes t s' g ∙ ap (λ (l : List ℕ). l ++ b) (p.writes s t f) ∙ append_assoc s.buf a b;
}

pub Writes-skip : Writes skip []
Writes-skip = record {
  writes = λ s s' e.
      let same : s ≡ s' = cc in ap (λ (t : Jit). t.buf) (sym same) ∙ sym (append-nil s.buf);
}

pub Writes-assert : (b : Bool) → Writes (assert b) []
Writes-assert true = record { writes = Writes-skip.writes }
Writes-assert false = record { writes = λ s s' e. absurd (cc) }

pub Writes-when :
    (b : Bool) {m : Emit} {a : List ℕ} → Writes m a → Writes (when b m) (if b then a else [])
Writes-when true p = record { writes = p.writes }
Writes-when false p = record { writes = Writes-skip.writes }

pub Writes-bytes : (bytes : List ℕ) → Writes (emit_bytes bytes) bytes
Writes-bytes bytes = record {
  writes = λ s s' e. ap (λ (t : Jit). t.buf) (sym (emit_bytes-emitted bytes s s' e).0);
}

-- The prefix and the ModRM byte of two registers.
abbrev pub rex_bytes : Bool → ℕ → ℕ → List ℕ
rex_bytes w src dst =
    if w || (leb 8 src || leb 8 dst) then (0x40 + 8 * bit w + 4 * (src / 8) + dst / 8) ∷ [] else []

abbrev pub modrm_byte : ℕ → ℕ → ℕ
modrm_byte r m = 0xc0 + r % 8 * 8 + m % 8

-- A test at all pairs of registers.
at_registers : (ℕ → ℕ → Bool) → Bool
at_registers p = holds_below 16 (λ r. holds_below 16 (p r))

at_registers-at :
    (p : ℕ → ℕ → Bool) → at_registers p ≡ true → (r m : ℕ) → r < 16 → m < 16 → p r m ≡ true
unfolding at_registers
at_registers-at p h r m a b =
    holds_below-at 16 (p r) m (holds_below-at 16 (λ x. holds_below 16 (p x)) r h a) b

abbrev is_modrm : ℕ → ℕ → Bool
is_modrm r m =
    bit_or (bit_or (bit_and 0xc0 0xc0) (bit_and r 7 * 2 ^ 3)) (bit_and m 7) % 256 == modrm_byte r m

modrm_table : at_registers is_modrm ≡ true
unfolding at_registers holds_below
modrm_table = refl

-- The value of the prefix.
abbrev rex_value : Bool → ℕ → ℕ → ℕ
rex_value w src dst = 0x40 + 8 * bit w + 4 * (src / 8) + dst / 8

abbrev rex_or : Bool → ℕ → ℕ → ℕ
rex_or w src dst =
    bit_or (bit_or (bit_or (bit_or 0x40 (bit w * 2 ^ 3)) (bit (top_bit src) * 2 ^ 2)) (0 * 2))
      (bit (top_bit dst))
    % 256

abbrev is_rex : Bool → ℕ → ℕ → Bool
is_rex w src dst = rex_or w src dst == rex_value w src dst

rex_table : (w : Bool) → at_registers (is_rex w) ≡ true
unfolding at_registers holds_below
rex_table true = refl
rex_table false = refl

bit-injective : (x y : Bool) → bit x ≡ bit y → x ≡ y
bit-injective x y h = ground arith

abbrev is_top : ℕ → Bool
is_top r = bit (top_bit r) == bit (leb 8 r)

top_table : holds_below 16 is_top ≡ true
unfolding holds_below
top_table = refl

top_bit-leb : (r : ℕ) → r < 16 → top_bit r ≡ leb 8 r
top_bit-leb r h =
    bit-injective (top_bit r) (leb 8 r)
      ((==_iff (bit (top_bit r)) (bit (leb 8 r))).0 (holds_below-at 16 is_top r top_table h))

pub Writes-emit1 : (x : ℕ) → Writes (emit1 x) ((x % 256) ∷ [])
unfolding emit1 to_bytes
Writes-emit1 x = Writes-bytes ((x % 256) ∷ [])

pub Writes-emit4 : (x : ℕ) → Writes (emit4 x) (to_bytes 4 x)
unfolding emit4
Writes-emit4 x = Writes-bytes (to_bytes 4 x)

pub Writes-emit8 : (x : ℕ) → Writes (emit8 x) (to_bytes 8 x)
unfolding emit8
Writes-emit8 x = Writes-bytes (to_bytes 8 x)

Writes-modrm : (r m : ℕ) → r < 16 → m < 16 → Writes (emit_modrm_reg2reg r m) (modrm_byte r m ∷ [])
unfolding emit_modrm_reg2reg emit_modrm
Writes-modrm r m a b =
    let same = (==_iff _ (modrm_byte r m)).0 (at_registers-at is_modrm modrm_table r m a b) in
    subst (λ (x : ℕ). Writes (emit_modrm_reg2reg r m) (x ∷ [])) same
      (Writes->> (Writes-assert (0xc0 == bit_and 0xc0 0xc0)) (Writes-emit1 _))

Writes-rex :
    (w src b : ℕ)
    → Writes
        (emit_rex w src 0 b)
        ((bit_or (bit_or (bit_or (bit_or 0x40 (w * 2 ^ 3)) (src * 2 ^ 2)) (0 * 2)) b % 256) ∷ [])
unfolding emit_rex
Writes-rex w src b = Writes->> (Writes-assert (leb w 1)) (
    Writes->> (Writes-assert (leb src 1))
      (Writes->> (Writes-assert (leb 0 1)) (Writes->> (Writes-assert (leb b 1)) (Writes-emit1 _))))

pub Writes-basic_rex :
    (w : Bool) (src dst : ℕ)
    → src < 16
    → dst < 16
    → Writes (emit_basic_rex w src dst) (rex_bytes w src dst)
unfolding emit_basic_rex
Writes-basic_rex w src dst a b =
    let value =
      (==_iff (rex_or w src dst) (rex_value w src dst)).0
        (at_registers-at (is_rex w) (rex_table w) src dst a b) in
    let written =
      Writes-when (w || (top_bit src || top_bit dst))
        (Writes-rex (bit w) (bit (top_bit src)) (bit (top_bit dst))) in
    rw (← top_bit-leb src a, ← top_bit-leb dst b, ← value) written

-- A prefix, an opcode and two registers.
abbrev pub alu_bytes : Bool → ℕ → ℕ → ℕ → List ℕ
alu_bytes w op src dst = rex_bytes w src dst ++ (op % 256) ∷ modrm_byte src dst ∷ []

-- `emit_alu32` or `emit_alu64`.
abbrev pub emit_alu : Bool → ℕ → ℕ → ℕ → Emit
emit_alu true = emit_alu64
emit_alu false = emit_alu32

abbrev pub emit_alu_imm32 : Bool → ℕ → ℕ → ℕ → ℕ → Emit
emit_alu_imm32 true = emit_alu64_imm32
emit_alu_imm32 false = emit_alu32_imm32

abbrev pub emit_alu_imm8 : Bool → ℕ → ℕ → ℕ → ℕ → Emit
emit_alu_imm8 true = emit_alu64_imm8
emit_alu_imm8 false = emit_alu32_imm8

module _ (op src dst : ℕ) (a : src < 16) (b : dst < 16) where
  pub Writes-alu : (w : Bool) → Writes (emit_alu w op src dst) (alu_bytes w op src dst)
  unfolding emit_alu32 emit_alu64
  Writes-alu true =
      Writes->> (Writes-basic_rex true src dst a b)
        (Writes->> (Writes-emit1 op) (Writes-modrm src dst a b))
  Writes-alu false =
      Writes->> (Writes-basic_rex false src dst a b)
        (Writes->> (Writes-emit1 op) (Writes-modrm src dst a b))

  pub Writes-alu_imm32 :
      (w : Bool) (imm : ℕ)
      → Writes (emit_alu_imm32 w op src dst imm) (alu_bytes w op src dst ++ to_bytes 4 imm)
  unfolding emit_alu32_imm32 emit_alu64_imm32
  Writes-alu_imm32 true imm = Writes->> (Writes-alu true) (Writes-emit4 imm)
  Writes-alu_imm32 false imm = Writes->> (Writes-alu false) (Writes-emit4 imm)

  pub Writes-alu_imm8 :
      (w : Bool) (imm : ℕ)
      → Writes (emit_alu_imm8 w op src dst imm) (alu_bytes w op src dst ++ (imm % 256) ∷ [])
  unfolding emit_alu32_imm8 emit_alu64_imm8
  Writes-alu_imm8 true imm = Writes->> (Writes-alu true) (Writes-emit1 imm)
  Writes-alu_imm8 false imm = Writes->> (Writes-alu false) (Writes-emit1 imm)

-- An opcode with a register in its three low bits.
abbrev is_low : ℕ → ℕ → Bool
is_low base r = bit_or base (bit_and r 7) % 256 == base + r % 8

low_table : (holds_below 16 (is_low 0xb8) ≡ true) × (holds_below 16 (is_low 0xc8) ≡ true)
unfolding holds_below
low_table = (refl, refl)

module _ (r : ℕ) (h : r < 16) where
  pub Writes-load_opcode : Writes (emit1 (bit_or 0xb8 (bit_and r 7))) ((0xb8 + r % 8) ∷ [])
  Writes-load_opcode =
      subst (λ (x : ℕ). Writes (emit1 (bit_or 0xb8 (bit_and r 7))) (x ∷ []))
        ((==_iff _ (0xb8 + r % 8)).0 (holds_below-at 16 (is_low 0xb8) r low_table.0 h))
        (Writes-emit1 (bit_or 0xb8 (bit_and r 7)))

  pub Writes-swap_opcode : Writes (emit1 (bit_or 0xc8 (bit_and r 7))) ((0xc8 + r % 8) ∷ [])
  Writes-swap_opcode =
      subst (λ (x : ℕ). Writes (emit1 (bit_or 0xc8 (bit_and r 7))) (x ∷ []))
        ((==_iff _ (0xc8 + r % 8)).0 (holds_below-at 16 (is_low 0xc8) r low_table.1 h))
        (Writes-emit1 (bit_or 0xc8 (bit_and r 7)))
