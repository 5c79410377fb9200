-- ===== src/Vm/Alu/Width.antt =====
-- About the width of the results of the ALU cases of `ubpf_exec` (tools/ubpf/vm/ubpf_vm.c).
use mathlib.Core.List.{reverse}
use mathlib.Core.Path.{subst}
use native.Mathlib.Nat.{div-le_self, mod-le}
use ve_bpf.Base.{
  ℕ, ◌+◌, ◌-◌, ◌*◌, ◌/◌, ◌%◌, ◌^◌, ◌<◌, ◌≡◌, ◌∙◌, arith, length, bit_and, bit_or, bit_xor,
}
use ve_bpf.Base.Bits.{bit_and-lt, bit_or-lt, bit_xor-lt, bit_and-mask}
use ve_bpf.Base.Word.{u32, u64, sext32}
use ve_bpf.Ebpf.Encoding.{to_bytes, of_bytes}
use ve_bpf.Ebpf.Encoding.RoundTrip.{
  of_bytes-lt, AreBytes-reverse, to_bytes-AreBytes, length-to_bytes, length-reverse,
}
use ve_bpf.Ebpf.Opcode.{
  Source, src_imm, src_reg, AluOp, add, sub, mul, div, or, and, lsh, rsh, modulo, xor, mov, arsh,
}
use ve_bpf.Vm.Alu.{
  value, mask32, shl64, shr, asr32, asr64, alu32, alu64, neg32, neg64, swap_bytes, to_le, to_be,
}

pub mask32_lem : (x : ℕ) → mask32 x ≡ u32 x
unfolding mask32
mask32_lem x = bit_and-mask 32 x

-- A 32-bit operation that has a result leaves a number below 2 ^ 32 in the destination, whatever
-- its operands.
pub alu32-lt : (op : AluOp) (s : Source) (a b v : ℕ) → alu32 op s a b ≡ value v → v < 2 ^ 32
unfolding alu32
alu32-lt add s a b v h = ground (arith, mask32_lem (u64 (a + b)))
alu32-lt sub s a b v h = ground (arith, mask32_lem (u64 (a + 2 ^ 64 - b)))
alu32-lt mul s a b v h = ground (arith, mask32_lem (u64 (a * b)))
alu32-lt div src_imm a b v h = ground (arith, mask32_lem (u32 a / u32 b))
alu32-lt div src_reg a b v h = ground (arith, mask32_lem (u32 a / u32 b))
alu32-lt or s a b v h = ground (arith, mask32_lem (bit_or a b))
alu32-lt and s a b v h = ground (arith, mask32_lem (bit_and a b))
alu32-lt lsh s a b v h = ground (arith, mask32_lem (shl64 a b))
alu32-lt rsh s a b v h = ground (arith, mask32_lem (shr (u32 a) b))
alu32-lt modulo src_imm a b v h = ground (arith, mask32_lem (u32 a % u32 b))
alu32-lt modulo src_reg a b v h = ground (arith)
alu32-lt xor s a b v h = ground (arith, mask32_lem (bit_xor a b))
alu32-lt mov s a b v h = ground (arith, mask32_lem b)
alu32-lt arsh s a b v h = ground (arith, mask32_lem (sext32 (asr32 (u32 a) (u32 b))))

shr-lt : (x k : ℕ) → x < 2 ^ 64 → shr x k < 2 ^ 64
unfolding shr
shr-lt x k h = omega (arith, div-le_self x (2 ^ k))

asr64-lt : (x k : ℕ) → x < 2 ^ 64 → asr64 x k < 2 ^ 64
unfolding asr64
asr64-lt x k h = ground (arith, div-le_self x (2 ^ k))

-- A 64-bit operation on 64-bit operands that has a result leaves a 64-bit number in the
-- destination.
pub alu64-lt :
    (op : AluOp) (s : Source) (a b v : ℕ)
    → a < 2 ^ 64
    → b < 2 ^ 64
    → alu64 op s a b ≡ value v
    → v < 2 ^ 64
unfolding alu64
alu64-lt add s a b v p q h = ground arith
alu64-lt sub s a b v p q h = ground arith
alu64-lt mul s a b v p q h = ground arith
alu64-lt div src_imm a b v p q h = ground (arith, div-le_self a b)
alu64-lt div src_reg a b v p q h = ground (arith, div-le_self a b)
alu64-lt or s a b v p q h = ground (arith, bit_or-lt 64 a b)
alu64-lt and s a b v p q h = ground (arith, bit_and-lt 64 a b)
alu64-lt lsh s a b v p q h = ground arith
alu64-lt rsh s a b v p q h = ground (arith, shr-lt a b)
alu64-lt modulo src_imm a b v p q h = ground (arith, mod-le a b)
alu64-lt modulo src_reg a b v p q h = ground (arith, mod-le a b)
alu64-lt xor s a b v p q h = ground (arith, bit_xor-lt 64 a b)
alu64-lt mov s a b v p q h = ground arith
alu64-lt arsh s a b v p q h = ground (arith, asr64-lt a b)

pub neg32-lt : (a : ℕ) → neg32 a < 2 ^ 32
unfolding neg32
neg32-lt a = omega (arith, mask32_lem (u64 (2 ^ 64 - a)))

pub neg64-lt : (a : ℕ) → neg64 a < 2 ^ 64
unfolding neg64
neg64-lt a = omega arith

swap_bytes-lt : (n x : ℕ) → swap_bytes n x < 256 ^ n
unfolding swap_bytes
swap_bytes-lt n x =
    let bs = reverse (to_bytes n x) in
    let count : length bs ≡ n = length-reverse (to_bytes n x) ∙ length-to_bytes n x in
    subst (λ (k : ℕ). of_bytes bs < 256 ^ k) count
      (of_bytes-lt bs (AreBytes-reverse (to_bytes n x) (to_bytes-AreBytes n x)))

pub to_le-lt : (imm x : ℕ) → x < 2 ^ 64 → to_le imm x < 2 ^ 64
unfolding to_le
to_le-lt imm x h = ground arith

pub to_be-lt : (imm x : ℕ) → x < 2 ^ 64 → to_be imm x < 2 ^ 64
unfolding to_be
to_be-lt imm x h = ground (arith, swap_bytes-lt 2 x, swap_bytes-lt 4 x, swap_bytes-lt 8 x)
