-- ===== src/X86/Values.antt =====
-- What the ALU cases of `ubpf_exec` (tools/ubpf/vm/ubpf_vm.c) compute is what the instructions of the
-- processor compute.
use ve_bpf.Base.{ℕ, ◌+◌, ◌-◌, ◌%◌, ◌^◌, ◌<◌, ◌≡◌, bit_and, bit_or, bit_xor, ltb, arith, true}
use native.Mathlib.Nat.{div-le_self, mod-eq_of_lt}
use ve_bpf.Base.Bits.Low.{bit_and-mod, bit_or-mod, bit_xor-mod, mul-mod_low}
use ve_bpf.Base.Word.{u32, u64, sext32}
use ve_bpf.Ebpf.Opcode.{Source, AluOp, add, sub, or, and, lsh, rsh, xor, arsh}
use ve_bpf.Vm.Alu.{value, mask32, shl64, shr, asr32, asr64, alu32, alu64, neg32, neg64}
use ve_bpf.Vm.Alu.Width.{mask32_lem}
use ve_bpf.X86.Format.{w32, w64, Binary, Shift}
use ve_bpf.X86.Format
use ve_bpf.X86.Machine.{binary_value, shift_value, count}

-- The instruction of the processor for an operation with two operands, and for a shift.
pub data IsBinary : AluOp → Binary → Type 0 where
  adds : IsBinary add Format.add
  subtracts : IsBinary sub Format.sub
  ors : IsBinary or Format.or
  ands : IsBinary and Format.and
  xors : IsBinary xor Format.xor

pub data IsShift : AluOp → Shift → Type 0 where
  shifts_left : IsShift lsh Format.shl
  shifts_right : IsShift rsh Format.shr
  shifts_signed : IsShift arsh Format.sar

pub binary64 :
    {op : AluOp} {o : Binary} (kind : IsBinary op o) (s : Source) (a b v : ℕ)
    → a < 2 ^ 64
    → b < 2 ^ 64
    → alu64 op s a b ≡ value v
    → binary_value w64 o (a % 2 ^ 64) (b % 2 ^ 64) ≡ v
unfolding binary_value alu64
binary64 adds s a b v p q h = ground arith
binary64 subtracts s a b v p q h = ground arith
binary64 ors s a b v p q h = rw (mod-eq_of_lt p, mod-eq_of_lt q) (cc)
binary64 ands s a b v p q h = rw (mod-eq_of_lt p, mod-eq_of_lt q) (cc)
binary64 xors s a b v p q h = rw (mod-eq_of_lt p, mod-eq_of_lt q) (cc)

pub binary32 :
    {op : AluOp} {o : Binary} (kind : IsBinary op o) (s : Source) (a b v : ℕ)
    → a < 2 ^ 64
    → b < 2 ^ 64
    → alu32 op s a b ≡ value v
    → binary_value w32 o (a % 2 ^ 32) (b % 2 ^ 32) ≡ v
unfolding binary_value alu32
binary32 adds s a b v p q h = ground (arith, mask32_lem (u64 (a + b)))
binary32 subtracts s a b v p q h = ground (arith, mask32_lem (u64 (a + 2 ^ 64 - b)))
binary32 ors s a b v p q h = ground (arith, mask32_lem (bit_or a b), bit_or-mod 32 a b)
binary32 ands s a b v p q h = ground (arith, mask32_lem (bit_and a b), bit_and-mod 32 a b)
binary32 xors s a b v p q h = ground (arith, mask32_lem (bit_xor a b), bit_xor-mod 32 a b)

pub shift64 :
    {op : AluOp} {o : Shift} (kind : IsShift op o) (s : Source) (a b v : ℕ)
    → a < 2 ^ 64
    → alu64 op s a b ≡ value v
    → shift_value w64 o (a % 2 ^ 64) (count w64 b) ≡ v
unfolding shift_value alu64 shl64 shr asr64
shift64 shifts_left s a b v p h =
    let small : b % 64 ≡ b = ground arith in rw (mod-eq_of_lt p, small) (ground arith)
shift64 shifts_right s a b v p h =
    let small : b % 64 ≡ b = ground arith in rw (mod-eq_of_lt p, small) (ground arith)
shift64 shifts_signed s a b v p h =
    let small : b % 64 ≡ b = ground arith in rw (mod-eq_of_lt p, small) (ground arith)

pub shift32 :
    {op : AluOp} {o : Shift} (kind : IsShift op o) (s : Source) (a b v : ℕ)
    → u32 b < 32
    → b < 2 ^ 64
    → alu32 op s a b ≡ value v
    → shift_value w32 o (a % 2 ^ 32) (count w32 b) ≡ v
unfolding shift_value alu32 shl64 shr asr32
shift32 shifts_left s a b v small p h =
    let b64 : ltb b 64 ≡ true = ground arith in
    let same : b % 32 ≡ b = ground arith in
    rw same (ground (arith, mask32_lem (shl64 a b), mul-mod_low a (2 ^ b) (2 ^ 32)))
shift32 shifts_right s a b v small p h =
    let same : b % 32 ≡ b = ground arith in
    rw same (ground (arith, mask32_lem (shr (u32 a) b), div-le_self (u32 a) (2 ^ b)))
shift32 shifts_signed s a b v small p h =
    let same : b % 32 ≡ u32 b = ground arith in
    rw same (
      ground (
        arith,
        mask32_lem (sext32 (asr32 (u32 a) (u32 b))),
        div-le_self (u32 a) (2 ^ u32 b),
        div-le_self (2 ^ 32 - 1 - u32 a) (2 ^ u32 b),
      ))

pub negate64 : (a : ℕ) → a < 2 ^ 64 → (2 ^ 64 - a % 2 ^ 64) % 2 ^ 64 ≡ neg64 a
unfolding neg64
negate64 a h = ground arith

pub negate32 : (a : ℕ) → a < 2 ^ 64 → (2 ^ 32 - a % 2 ^ 32) % 2 ^ 32 ≡ neg32 a
unfolding neg32 mask32
negate32 a h = ground (arith, mask32_lem (u64 (2 ^ 64 - a)))
