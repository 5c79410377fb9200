-- ===== src/X86/Emitted.antt =====
-- What the code of the functions of tools/ubpf/vm/ubpf_jit_x86_64.h sets a register to.
use ve_bpf.Base.{
  ℕ, ◌-◌, ◌%◌, ◌^◌, ◌<◌, ◌≡◌, refl, ap, Bool, true, false, ltb, leb, ◌||◌, none, some, ◌==◌, arith,
  bit_and, bit_or,
}
use mathlib.Core.List.{reverse}
use native.Mathlib.Nat.{mod-eq_of_lt}
use ve_bpf.Base.Word.{sext32}
use ve_bpf.Ebpf.Opcode.{AluOp}
use ve_bpf.Ebpf.Encoding.{to_bytes, of_bytes}
use ve_bpf.Jit.Emit.{rcx, emit_mov, emit_load_imm, emit_basic_rex}
use ve_bpf.Jit.State.{◌>>◌, emit1}
use ve_bpf.Jit.Writes.{
  emit_alu, emit_alu_imm32, emit_alu_imm8, Writes-alu, Writes-alu_imm32, Writes-alu_imm8, Writes->>,
  Writes-basic_rex, Writes-load_opcode, Writes-swap_opcode, Writes-emit1, Writes-emit8,
}
use ve_bpf.X86.Format.{Width, w64, Binary, Shift}
use ve_bpf.X86.Machine.{
  Machine, modulus, count, extended, binary_value, shift_value, binary_flags, binary_result, at,
  with_reg, execute, bytes_of,
}
use ve_bpf.X86.Reads.{width, Encodes-load_imm, Encodes-swap}
use ve_bpf.X86.Instructions.{
  code, digit_of, shift_digit_of, Encodes-binary, Encodes-move, Encodes-binary_imm,
  Encodes-shift_imm, Encodes-shift_cl, Encodes-negate, Encodes-move_imm,
}
use ve_bpf.X86.Sets.{Sets, Sets-one, Sets-rcx}
use ve_bpf.X86.Values.{IsBinary, adds, subtracts, ors, ands, xors}

digit_of-lt : (o : Binary) → digit_of o < 16
digit_of-lt o = ground arith

shift_digit_of-lt : (o : Shift) → shift_digit_of o < 16
shift_digit_of-lt o = ground arith

binary_result_lem :
    {op : AluOp} {o : Binary} (kind : IsBinary op o) (w : Width) (m : Machine) (rm x : ℕ)
    → binary_result w o m rm x ≡ with_reg m rm (binary_value w o (at w m rm) x) none
unfolding binary_flags
binary_result_lem adds w m rm x = refl
binary_result_lem subtracts w m rm x = refl
binary_result_lem ors w m rm x = refl
binary_result_lem ands w m rm x = refl
binary_result_lem xors w m rm x = refl

module _ (w : Bool) (dst : ℕ) (b : dst < 16) (m : Machine) (v : ℕ) where
  pub Sets-binary :
      {op : AluOp} {o : Binary} (kind : IsBinary op o) (src : ℕ)
      → src < 16
      → binary_value (width w) o (at (width w) m dst) (at (width w) m src) ≡ v
      → Sets (emit_alu w (code o) src dst) m dst v
  unfolding execute
  Sets-binary {op} {o} kind src a h =
      Sets-one m dst v _ none (Writes-alu (code o) src dst a b w) (Encodes-binary w src dst a b o)
        (ap some (binary_result_lem kind (width w) m dst (at (width w) m src))) h

  pub Sets-binary_imm :
      {op : AluOp} {o : Binary} (kind : IsBinary op o) (imm : ℕ)
      → imm < 2 ^ 32
      → binary_value (width w) o (at (width w) m dst) (extended (width w) imm) ≡ v
      → Sets (emit_alu_imm32 w 0x81 (digit_of o) dst imm) m dst v
  unfolding execute
  Sets-binary_imm {op} {o} kind imm a h =
      let same : imm % 2 ^ 32 ≡ imm = mod-eq_of_lt a in
      Sets-one m dst v _ none (Writes-alu_imm32 0x81 (digit_of o) dst (digit_of-lt o) b w imm)
        (Encodes-binary_imm w dst b o imm)
        (ap some (binary_result_lem kind (width w) m dst (extended (width w) (imm % 2 ^ 32))))
        (rw same h)

  pub Sets-shift_imm :
      (o : Shift) (imm : ℕ)
      → shift_value (width w) o (at (width w) m dst) (count (width w) (imm % 256)) ≡ v
      → Sets (emit_alu_imm8 w 0xc1 (shift_digit_of o) dst imm) m dst v
  unfolding execute
  Sets-shift_imm o imm h =
      Sets-one m dst v _ none
        (Writes-alu_imm8 0xc1 (shift_digit_of o) dst (shift_digit_of-lt o) b w imm)
        (Encodes-shift_imm w dst b o imm) refl h

  pub Sets-shift_cl :
      (o : Shift) (src : ℕ)
      → src < 16
      → (1 == dst) ≡ false
      → shift_value (width w) o (at (width w) m dst) (count (width w) (at w64 m src)) ≡ v
      → Sets (emit_mov src rcx >> emit_alu w 0xd3 (shift_digit_of o) dst) m dst v
  unfolding execute emit_mov
  Sets-shift_cl o src a d h =
      Sets-rcx m dst v _ m.flags (Writes-alu 0x89 src rcx a (omega arith) true)
        (Encodes-move true src rcx a (omega arith)) refl
        (Sets-one _ dst v _ none (Writes-alu 0xd3 (shift_digit_of o) dst (shift_digit_of-lt o) b w)
          (Encodes-shift_cl w dst b o) refl (rw d h))

  pub Sets-move :
      (src : ℕ) → src < 16 → at (width w) m src ≡ v → Sets (emit_alu w 0x89 src dst) m dst v
  unfolding execute
  Sets-move src a h =
      Sets-one m dst v _ m.flags (Writes-alu 0x89 src dst a b w) (Encodes-move w src dst a b) refl h

  pub Sets-move_imm :
      (imm : ℕ)
      → imm < 2 ^ 32
      → extended (width w) imm ≡ v
      → Sets (emit_alu_imm32 w 0xc7 0 dst imm) m dst v
  unfolding execute
  Sets-move_imm imm a h =
      Sets-one m dst v _ m.flags (Writes-alu_imm32 0xc7 0 dst (omega arith) b w imm)
        (Encodes-move_imm w dst b imm) refl (rw (mod-eq_of_lt a) h)

  pub Sets-negate :
      (modulus (width w) - at (width w) m dst) % modulus (width w) ≡ v
      → Sets (emit_alu w 0xf7 3 dst) m dst v
  unfolding execute
  Sets-negate h =
      Sets-one m dst v _ none (Writes-alu 0xf7 3 dst (omega arith) b w) (Encodes-negate w dst b)
        refl h

module _ (dst : ℕ) (b : dst < 16) (m : Machine) where
  load_immediate :
      (imm : ℕ) (short : Bool)
      → (leb (2 ^ 64 - 2 ^ 31) imm || ltb imm (2 ^ 31)) ≡ short
      → imm < 2 ^ 64
      → Sets (emit_load_imm dst imm) m dst imm
  unfolding execute emit_load_imm
  load_immediate imm true e h =
      let value : sext32 (imm % 2 ^ 32) ≡ imm = ground arith in
      rw e (
        Sets-one m dst imm _ m.flags (Writes-alu_imm32 0xc7 0 dst (omega arith) b true imm)
          (Encodes-move_imm true dst b imm) refl value)
  load_immediate imm false e h = rw e (
      Sets-one m dst imm imm m.flags
        (Writes->> (Writes-basic_rex true 0 dst (omega arith) b)
          (Writes->> (Writes-load_opcode dst b) (Writes-emit8 imm)))
        (Encodes-load_imm dst imm b h) refl refl)

  pub Sets-load_imm : (imm : ℕ) → imm < 2 ^ 64 → Sets (emit_load_imm dst imm) m dst imm
  Sets-load_imm imm h = load_immediate imm (leb (2 ^ 64 - 2 ^ 31) imm || ltb imm (2 ^ 31)) refl h

  pub Sets-swap :
      (w : Bool) (v : ℕ)
      → of_bytes (reverse (to_bytes (bytes_of (width w)) (m.reg dst))) ≡ v
      → Sets (emit_basic_rex w 0 dst >> (emit1 0x0f >> emit1 (bit_or 0xc8 (bit_and dst 7)))) m dst v
  unfolding execute
  Sets-swap w v h =
      Sets-one m dst v _ m.flags
        (Writes->> (Writes-basic_rex w 0 dst (omega arith) b)
          (Writes->> (Writes-emit1 0x0f) (Writes-swap_opcode dst b)))
        (Encodes-swap w dst b) refl h
