-- ===== src/X86/Alu.antt =====
-- The ALU cases of `translate` (tools/ubpf/vm/ubpf_jit_x86_64.c): their code sets the destination to what
-- the cases of `ubpf_exec` compute.
use ve_bpf.Base.{
  ℕ, ◌+◌, ◌*◌, ◌%◌, ◌^◌, ◌<◌, ◌≡◌, ◌∙◌, ap, Bool, true, false, ◌||◌, ◌&&◌, not, ltb, ◌==◌, arith,
}
use mathlib.Core.Path.{subst}
use ve_bpf.Vm.Alu.Width.{mask32_lem}
use native.Mathlib.Nat.{mod-eq_of_lt}
use ve_bpf.Base.Word.{sext32, u32}
use ve_bpf.Ebpf.{Inst}
use ve_bpf.Ebpf.Opcode.{
  Source, src_imm, src_reg, AluOp, add, sub, mul, div, or, and, lsh, rsh, modulo, xor, mov, arsh,
}
use ve_bpf.Vm.Alu.{AluResult, value, alu32, alu64}
use ve_bpf.Jit.Emit.{bit, rcx, emit_mov, emit_load_imm}
use ve_bpf.Jit.State.{◌>>◌}
use ve_bpf.Jit.Translate.{translate_alu, translate_alu64}
use ve_bpf.Jit.Writes.{emit_alu, emit_alu_imm32, emit_alu_imm8}
use ve_bpf.X86.Format.{Binary, Shift}
use ve_bpf.X86.Machine.{Machine, binary_value, shift_value, extended, modulus, at, count}
use ve_bpf.X86.Reads.{width}
use ve_bpf.X86.Instructions.{code, digit_of, shift_digit_of}
use ve_bpf.X86.Sets.{Sets}
use ve_bpf.X86.Emitted.{
  Sets-binary, Sets-binary_imm, Sets-shift_imm, Sets-shift_cl, Sets-move, Sets-move_imm,
  Sets-load_imm,
}
use ve_bpf.X86.Values.{
  IsBinary, adds, subtracts, ors, ands, xors, IsShift, shifts_left, shifts_right, shifts_signed,
  binary64, binary32, shift64, shift32,
}

-- The operations that one instruction of the processor computes. The others call `muldivmod`.
abbrev pub is_direct : AluOp → Bool
is_direct mul = false
is_direct div = false
is_direct modulo = false
is_direct _ = true

abbrev pub is_mov : AluOp → Bool
is_mov mov = true
is_mov _ = false

-- The operations with 64 bits, and with 32.
abbrev alu_of : Bool → AluOp → Source → ℕ → ℕ → AluResult
alu_of true = alu64
alu_of false = alu32

pub sext32-lt : (x : ℕ) → x < 2 ^ 32 → sext32 x < 2 ^ 64
sext32-lt x h = ground arith

binary_lem :
    (w : Bool) {op : AluOp} {o : Binary} (kind : IsBinary op o) (s : Source) (a b v : ℕ)
    → a < 2 ^ 64
    → b < 2 ^ 64
    → alu_of w op s a b ≡ value v
    → binary_value (width w) o (a % modulus (width w)) (b % modulus (width w)) ≡ v
binary_lem true kind s a b v = binary64 kind s a b v
binary_lem false kind s a b v = binary32 kind s a b v

shift_lem :
    (w : Bool) {op : AluOp} {o : Shift} (kind : IsShift op o) (s : Source) (a b v : ℕ)
    → u32 b < 32 + 32 * bit w
    → a < 2 ^ 64
    → b < 2 ^ 64
    → alu_of w op s a b ≡ value v
    → shift_value (width w) o (a % modulus (width w)) (count (width w) b) ≡ v
shift_lem true kind s a b v c p q = shift64 kind s a b v p
shift_lem false kind s a b v c p q = shift32 kind s a b v c q

-- A 32-bit shift to the left by 32 or more has a result in the interpreter only.
abbrev pub fits : AluOp → ℕ → Bool
fits lsh b = ltb b 32
fits _ b = true

extended_lem :
    (w : Bool) (imm : ℕ) → imm < 2 ^ 32 → extended (width w) imm ≡ sext32 imm % modulus (width w)
extended_lem true imm h = ground arith
extended_lem false imm h = ground arith

count_lem :
    (w : Bool) (imm : ℕ) → imm < 2 ^ 32 → count (width w) (imm % 256) ≡ count (width w) (sext32 imm)
count_lem true imm h = ground arith
count_lem false imm h = ground arith

shift_small :
    (w : Bool) {op : AluOp} {o : Shift} (kind : IsShift op o) (s : Source) (a b v : ℕ)
    → (w || fits op b) ≡ true
    → alu_of w op s a b ≡ value v
    → u32 b < 32 + 32 * bit w
unfolding alu32 alu64
shift_small true shifts_left s a b v f h = ground arith
shift_small true shifts_right s a b v f h = ground arith
shift_small true shifts_signed s a b v f h = ground arith
shift_small false shifts_left s a b v f h = ground arith
shift_small false shifts_right s a b v f h = ground arith
shift_small false shifts_signed s a b v f h = ground arith

module _ (w : Bool) (inst : Inst) (src dst : ℕ) (m : Machine) (v : ℕ) (imm : inst.imm < 2 ^ 32)
    (ps : src < 16) (pd : dst < 16) (not_rcx : (1 == dst) ≡ false) (wd : m.reg dst < 2 ^ 64)
    (ws : m.reg src < 2 ^ 64) where
  by_registers :
      {op : AluOp} {o : Binary} (kind : IsBinary op o)
      → alu_of w op src_reg (m.reg dst) (m.reg src) ≡ value v
      → Sets (emit_alu w (code o) src dst) m dst v
  by_registers kind h =
      Sets-binary w dst pd m v kind src ps
        (binary_lem w kind src_reg (m.reg dst) (m.reg src) v wd ws h)

  by_immediate :
      {op : AluOp} {o : Binary} (kind : IsBinary op o)
      → alu_of w op src_imm (m.reg dst) (sext32 inst.imm) ≡ value v
      → Sets (emit_alu_imm32 w 0x81 (digit_of o) dst inst.imm) m dst v
  by_immediate {op} {o} kind h = Sets-binary_imm w dst pd m v kind inst.imm imm (
      ap (binary_value (width w) o (at (width w) m dst)) (extended_lem w inst.imm imm)
      ∙ binary_lem w kind src_imm (m.reg dst) (sext32 inst.imm) v wd (sext32-lt inst.imm imm) h)

  by_count :
      {op : AluOp} {o : Shift} (kind : IsShift op o)
      → (w || fits op (m.reg src)) ≡ true
      → alu_of w op src_reg (m.reg dst) (m.reg src) ≡ value v
      → Sets (emit_mov src rcx >> emit_alu w 0xd3 (shift_digit_of o) dst) m dst v
  by_count {op} {o} kind c h =
      let whole : m.reg src % 2 ^ 64 ≡ m.reg src = mod-eq_of_lt ws in
      Sets-shift_cl w dst pd m v o src ps not_rcx (
        rw whole (
          shift_lem w kind src_reg (m.reg dst) (m.reg src) v
            (shift_small w kind src_reg (m.reg dst) (m.reg src) v c h) wd ws h))

  by_shift :
      {op : AluOp} {o : Shift} (kind : IsShift op o)
      → (w || fits op (sext32 inst.imm)) ≡ true
      → alu_of w op src_imm (m.reg dst) (sext32 inst.imm) ≡ value v
      → Sets (emit_alu_imm8 w 0xc1 (shift_digit_of o) dst inst.imm) m dst v
  by_shift {op} {o} kind c h = Sets-shift_imm w dst pd m v o inst.imm (
      ap (shift_value (width w) o (at (width w) m dst)) (count_lem w inst.imm imm)
      ∙ shift_lem w kind src_imm (m.reg dst) (sext32 inst.imm) v
          (shift_small w kind src_imm (m.reg dst) (sext32 inst.imm) v c h) wd
          (sext32-lt inst.imm imm) h)

module _ (inst : Inst) (src dst : ℕ) (m : Machine) (v : ℕ) (imm : inst.imm < 2 ^ 32) (ps : src < 16)
    (pd : dst < 16) (not_rcx : (1 == dst) ≡ false) (wd : m.reg dst < 2 ^ 64)
    (ws : m.reg src < 2 ^ 64) (i : ℕ) where
  pub alu64_imm :
      (op : AluOp)
      → is_direct op ≡ true
      → (true || fits op (sext32 inst.imm)) ≡ true
      → alu64 op src_imm (m.reg dst) (sext32 inst.imm) ≡ value v
      → Sets (translate_alu64 i inst src dst op src_imm) m dst v
  unfolding translate_alu64 alu64 emit_mov
  alu64_imm add d f h = by_immediate true inst src dst m v imm ps pd not_rcx wd ws adds h
  alu64_imm sub d f h = by_immediate true inst src dst m v imm ps pd not_rcx wd ws subtracts h
  alu64_imm or d f h = by_immediate true inst src dst m v imm ps pd not_rcx wd ws ors h
  alu64_imm and d f h = by_immediate true inst src dst m v imm ps pd not_rcx wd ws ands h
  alu64_imm xor d f h = by_immediate true inst src dst m v imm ps pd not_rcx wd ws xors h
  alu64_imm lsh d f h = by_shift true inst src dst m v imm ps pd not_rcx wd ws shifts_left f h
  alu64_imm rsh d f h = by_shift true inst src dst m v imm ps pd not_rcx wd ws shifts_right f h
  alu64_imm arsh d f h = by_shift true inst src dst m v imm ps pd not_rcx wd ws shifts_signed f h
  alu64_imm mov d f h =
      subst (Sets (emit_load_imm dst (sext32 inst.imm)) m dst) (cc)
        (Sets-load_imm dst pd m (sext32 inst.imm) (sext32-lt inst.imm imm))
  alu64_imm mul d f h = absurd cc
  alu64_imm div d f h = absurd cc
  alu64_imm modulo d f h = absurd cc

  pub alu64_reg :
      (op : AluOp)
      → is_direct op ≡ true
      → (true || fits op (m.reg src)) ≡ true
      → alu64 op src_reg (m.reg dst) (m.reg src) ≡ value v
      → Sets (translate_alu64 i inst src dst op src_reg) m dst v
  unfolding translate_alu64 alu64 emit_mov
  alu64_reg add d f h = by_registers true inst src dst m v imm ps pd not_rcx wd ws adds h
  alu64_reg sub d f h = by_registers true inst src dst m v imm ps pd not_rcx wd ws subtracts h
  alu64_reg or d f h = by_registers true inst src dst m v imm ps pd not_rcx wd ws ors h
  alu64_reg and d f h = by_registers true inst src dst m v imm ps pd not_rcx wd ws ands h
  alu64_reg xor d f h = by_registers true inst src dst m v imm ps pd not_rcx wd ws xors h
  alu64_reg lsh d f h = by_count true inst src dst m v imm ps pd not_rcx wd ws shifts_left f h
  alu64_reg rsh d f h = by_count true inst src dst m v imm ps pd not_rcx wd ws shifts_right f h
  alu64_reg arsh d f h = by_count true inst src dst m v imm ps pd not_rcx wd ws shifts_signed f h
  alu64_reg mov d f h = Sets-move true dst pd m v src ps (mod-eq_of_lt ws ∙ cc)
  alu64_reg mul d f h = absurd cc
  alu64_reg div d f h = absurd cc
  alu64_reg modulo d f h = absurd cc

  pub alu32_imm :
      (op : AluOp)
      → is_direct op ≡ true
      → (false || fits op (sext32 inst.imm)) ≡ true
      → alu32 op src_imm (m.reg dst) (sext32 inst.imm) ≡ value v
      → Sets (translate_alu i inst src dst op src_imm) m dst v
  unfolding translate_alu alu32 emit_mov
  alu32_imm add d f h = by_immediate false inst src dst m v imm ps pd not_rcx wd ws adds h
  alu32_imm sub d f h = by_immediate false inst src dst m v imm ps pd not_rcx wd ws subtracts h
  alu32_imm or d f h = by_immediate false inst src dst m v imm ps pd not_rcx wd ws ors h
  alu32_imm and d f h = by_immediate false inst src dst m v imm ps pd not_rcx wd ws ands h
  alu32_imm xor d f h = by_immediate false inst src dst m v imm ps pd not_rcx wd ws xors h
  alu32_imm lsh d f h = by_shift false inst src dst m v imm ps pd not_rcx wd ws shifts_left f h
  alu32_imm rsh d f h = by_shift false inst src dst m v imm ps pd not_rcx wd ws shifts_right f h
  alu32_imm arsh d f h = by_shift false inst src dst m v imm ps pd not_rcx wd ws shifts_signed f h
  alu32_imm mov d f h =
      Sets-move_imm false dst pd m v inst.imm imm (ground (arith, mask32_lem (sext32 inst.imm)))
  alu32_imm mul d f h = absurd cc
  alu32_imm div d f h = absurd cc
  alu32_imm modulo d f h = absurd cc

  pub alu32_reg :
      (op : AluOp)
      → (is_direct op && not (is_mov op)) ≡ true
      → (false || fits op (m.reg src)) ≡ true
      → alu32 op src_reg (m.reg dst) (m.reg src) ≡ value v
      → Sets (translate_alu i inst src dst op src_reg) m dst v
  unfolding translate_alu alu32 emit_mov
  alu32_reg add d f h = by_registers false inst src dst m v imm ps pd not_rcx wd ws adds h
  alu32_reg sub d f h = by_registers false inst src dst m v imm ps pd not_rcx wd ws subtracts h
  alu32_reg or d f h = by_registers false inst src dst m v imm ps pd not_rcx wd ws ors h
  alu32_reg and d f h = by_registers false inst src dst m v imm ps pd not_rcx wd ws ands h
  alu32_reg xor d f h = by_registers false inst src dst m v imm ps pd not_rcx wd ws xors h
  alu32_reg lsh d f h = by_count false inst src dst m v imm ps pd not_rcx wd ws shifts_left f h
  alu32_reg rsh d f h = by_count false inst src dst m v imm ps pd not_rcx wd ws shifts_right f h
  alu32_reg arsh d f h = by_count false inst src dst m v imm ps pd not_rcx wd ws shifts_signed f h
  alu32_reg mul d f h = absurd cc
  alu32_reg div d f h = absurd cc
  alu32_reg modulo d f h = absurd cc
  alu32_reg mov d f h = absurd cc
