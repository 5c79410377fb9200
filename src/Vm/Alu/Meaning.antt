-- ===== src/Vm/Alu/Meaning.antt =====
-- About the meaning of the ALU cases of `ubpf_exec` (tools/ubpf/vm/ubpf_vm.c): signed shifts.

use native.Mathlib.Nat.{div-le_self}
use ve_bpf.Base.{ℕ, ◌-◌, ◌/◌, ◌^◌, ◌<◌, ◌≡◌, arith, ℤ, pos, negsuc}
use ve_bpf.Base.Word.{u32, sext32, signed32, signed64}
use ve_bpf.Ebpf.Opcode.{Source, arsh}
use ve_bpf.Vm.Alu.{value, asr32, asr64, alu32, alu64}
use ve_bpf.Vm.Alu.Width.{mask32_lem}

-- The quotient of an integer by a natural number, rounded down.
abbrev pub floor_div : ℤ → ℕ → ℤ
floor_div (pos n) d = pos (n / d)
floor_div (negsuc n) d = negsuc (n / d)

asr64-floor : (x k : ℕ) → x < 2 ^ 64 → signed64 (asr64 x k) ≡ floor_div (signed64 x) (2 ^ k)
unfolding asr64
asr64-floor x k h = ground (arith, div-le_self x (2 ^ k), div-le_self (2 ^ 64 - 1 - x) (2 ^ k))

asr32-floor : (x k : ℕ) → x < 2 ^ 32 → signed32 (asr32 x k) ≡ floor_div (signed32 x) (2 ^ k)
unfolding asr32
asr32-floor x k h = ground (arith, div-le_self x (2 ^ k), div-le_self (2 ^ 32 - 1 - x) (2 ^ k))

asr32-lt : (x k : ℕ) → x < 2 ^ 32 → asr32 x k < 2 ^ 32
unfolding asr32
asr32-lt x k h = ground (arith, div-le_self x (2 ^ k))

alu64-arsh : (s : Source) (a b v : ℕ) → alu64 arsh s a b ≡ value v → v ≡ asr64 a b
unfolding alu64
alu64-arsh s a b v h = ground arith

alu32-arsh : (s : Source) (a b v : ℕ) → alu32 arsh s a b ≡ value v → v ≡ asr32 (u32 a) (u32 b)
unfolding alu32
alu32-arsh s a b v h =
    ground
      (arith, mask32_lem (sext32 (asr32 (u32 a) (u32 b))), asr32-lt (u32 a) (u32 b) (omega arith))

-- An arithmetic right shift of a 64-bit destination, where it has a result, divides the signed
-- number by the power of two and rounds down.
pub arsh64-floor :
    (s : Source) (a b v : ℕ)
    → a < 2 ^ 64
    → alu64 arsh s a b ≡ value v
    → signed64 v ≡ floor_div (signed64 a) (2 ^ b)
arsh64-floor s a b v w h = rw (alu64-arsh s a b v h) (asr64-floor a b w)

-- The 32-bit arithmetic right shift, where it has a result, divides the signed number in the low
-- 32 bits of the destination by the power of two and rounds down.
pub arsh32-floor :
    (s : Source) (a b v : ℕ)
    → alu32 arsh s a b ≡ value v
    → signed32 v ≡ floor_div (signed32 (u32 a)) (2 ^ u32 b)
arsh32-floor s a b v h = rw (alu32-arsh s a b v h) (asr32-floor (u32 a) (u32 b) (omega arith))
