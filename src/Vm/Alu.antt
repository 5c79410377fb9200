-- ===== src/Vm/Alu.antt =====
-- The arithmetic of `ubpf_exec` (tools/ubpf/vm/ubpf_vm.c): what each ALU case computes from the
-- destination register `a` and the operand `b`, both below 2 ^ 64. The operand is the source
-- register, or the immediate converted to 64 bits.
pub mod Width
pub mod Meaning
use mathlib.Core.List.{reverse}
use ve_bpf.Base.{
  ℕ, ◌+◌, ◌-◌, ◌*◌, ◌/◌, ◌%◌, ◌^◌, bit_and, bit_or, bit_xor, ltb, ◌==◌, if◌then◌else◌,
}
use ve_bpf.Base.Word.{u32, u64, sext32}
use ve_bpf.Ebpf.Opcode.{
  Source, src_imm, src_reg, AluOp, add, sub, mul, div, or, and, lsh, rsh, modulo, xor, mov, arsh,
}
use ve_bpf.Ebpf.Encoding.{to_bytes, of_bytes}

-- `undefined` is what C leaves undefined: a shift by the width or more, a division by zero that
-- the code does not test for.
pub data AluResult : Type 0 where
  value : ℕ → AluResult
  div_by_zero undefined : AluResult

-- `x & UINT32_MAX`.
unfoldable pub mask32 : ℕ → ℕ
mask32 x = bit_and x (2 ^ 32 - 1)

-- `x << k` and `x >> k` on `uint64_t`, for k < 64.
unfoldable pub shl64 : ℕ → ℕ → ℕ
shl64 x k = u64 (x * 2 ^ k)

unfoldable pub shr : ℕ → ℕ → ℕ
shr x k = x / 2 ^ k

-- `(int32_t)x >> k` and `(int64_t)x >> k`: the sign bit comes in from above.
unfoldable pub asr32 : ℕ → ℕ → ℕ
asr32 x k = if ltb x (2 ^ 31) then x / 2 ^ k else 2 ^ 32 - 1 - (2 ^ 32 - 1 - x) / 2 ^ k

unfoldable pub asr64 : ℕ → ℕ → ℕ
asr64 x k = if ltb x (2 ^ 63) then x / 2 ^ k else 2 ^ 64 - 1 - (2 ^ 64 - 1 - x) / 2 ^ k

-- The cases of `EBPF_CLS_ALU`.
unfoldable pub alu32 : AluOp → Source → ℕ → ℕ → AluResult
unfolding mask32 shl64 shr asr32
alu32 add _ a b = value (mask32 (u64 (a + b)))
alu32 sub _ a b = value (mask32 (u64 (a + 2 ^ 64 - b)))
alu32 mul _ a b = value (mask32 (u64 (a * b)))
alu32 div src_imm a b = if u32 b == 0 then undefined else value (mask32 (u32 a / u32 b))
alu32 div src_reg a b =
    if b == 0
    then div_by_zero
    else (if u32 b == 0 then undefined else value (mask32 (u32 a / u32 b)))
alu32 or _ a b = value (mask32 (bit_or a b))
alu32 and _ a b = value (mask32 (bit_and a b))
alu32 lsh _ a b = if ltb b 64 then value (mask32 (shl64 a b)) else undefined
alu32 rsh _ a b = if ltb b 32 then value (mask32 (shr (u32 a) b)) else undefined
alu32 modulo src_imm a b = if u32 b == 0 then undefined else value (mask32 (u32 a % u32 b))
alu32 modulo src_reg a b =
    if b == 0 then div_by_zero else (if u32 b == 0 then undefined else value (u32 a % u32 b))
alu32 xor _ a b = value (mask32 (bit_xor a b))
alu32 mov _ a b = value (mask32 b)
alu32 arsh _ a b =
    if ltb (u32 b) 32 then value (mask32 (sext32 (asr32 (u32 a) (u32 b)))) else undefined

-- The cases of `EBPF_CLS_ALU64`.
unfoldable pub alu64 : AluOp → Source → ℕ → ℕ → AluResult
unfolding shl64 shr asr64
alu64 add _ a b = value (u64 (a + b))
alu64 sub _ a b = value (u64 (a + 2 ^ 64 - b))
alu64 mul _ a b = value (u64 (a * b))
alu64 div src_imm a b = if b == 0 then undefined else value (a / b)
alu64 div src_reg a b = if b == 0 then div_by_zero else value (a / b)
alu64 or _ a b = value (bit_or a b)
alu64 and _ a b = value (bit_and a b)
alu64 lsh _ a b = if ltb b 64 then value (shl64 a b) else undefined
alu64 rsh _ a b = if ltb b 64 then value (shr a b) else undefined
alu64 modulo src_imm a b = if b == 0 then undefined else value (a % b)
alu64 modulo src_reg a b = if b == 0 then div_by_zero else value (a % b)
alu64 xor _ a b = value (bit_xor a b)
alu64 mov _ a b = value b
alu64 arsh _ a b = if ltb b 64 then value (asr64 a b) else undefined

-- `EBPF_OP_NEG` and `EBPF_OP_NEG64`.
unfoldable pub neg32 : ℕ → ℕ
unfolding mask32
neg32 a = mask32 (u64 (2 ^ 64 - a))

unfoldable pub neg64 : ℕ → ℕ
neg64 a = u64 (2 ^ 64 - a)

-- The `n` low bytes in the other order: `htobe16`, `htobe32` and `htobe64` on a little-endian host.
unfoldable pub swap_bytes : ℕ → ℕ → ℕ
swap_bytes n x = of_bytes (reverse (to_bytes n x))

-- `EBPF_OP_LE` and `EBPF_OP_BE` with the immediate `imm`; the host is little-endian. The argument
-- of `htole16` and its kin is of the type that the name says.
unfoldable pub to_le : ℕ → ℕ → ℕ
to_le imm x = if imm == 16 then x % 2 ^ 16 else (if imm == 32 then u32 x else x)

unfoldable pub to_be : ℕ → ℕ → ℕ
unfolding swap_bytes
to_be imm x =
    if imm == 16
    then swap_bytes 2 x
    else (if imm == 32 then swap_bytes 4 x else (if imm == 64 then swap_bytes 8 x else x))
