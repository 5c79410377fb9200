-- ===== src/Base/Word.antt =====
-- Machine words as native numbers: a cast to `uintN_t` is a remainder, a cast to `intN_t` keeps
-- the bit pattern, and the integer that a pattern stands for is read by `signed`.
use Prim.Native.Nat.{ℕ, ◌+◌, ◌-◌, ◌%◌, ◌^◌}
use ve_bpf.Base.Tests.{ltb, if◌then◌else◌}
use ve_bpf.Base.Int.{ℤ, pos, negsuc}

abbrev pub u8 : ℕ → ℕ
u8 n = n % 2 ^ 8

abbrev pub u16 : ℕ → ℕ
u16 n = n % 2 ^ 16

abbrev pub u32 : ℕ → ℕ
u32 n = n % 2 ^ 32

abbrev pub u64 : ℕ → ℕ
u64 n = n % 2 ^ 64

-- `UINT64_MAX`.
abbrev pub uint64_max : ℕ
uint64_max = 2 ^ 64 - 1

-- The integers that 16-, 32- and 64-bit patterns stand for.
abbrev pub signed16 : ℕ → ℤ
signed16 w = if ltb w (2 ^ 15) then pos w else negsuc (2 ^ 16 - 1 - w)

abbrev pub signed32 : ℕ → ℤ
signed32 w = if ltb w (2 ^ 31) then pos w else negsuc (2 ^ 32 - 1 - w)

abbrev pub signed64 : ℕ → ℤ
signed64 w = if ltb w (2 ^ 63) then pos w else negsuc (2 ^ 64 - 1 - w)

-- The conversion of an `int32_t` or an `int16_t` to 64 bits.
abbrev pub sext32 : ℕ → ℕ
sext32 w = if ltb w (2 ^ 31) then w else w + (2 ^ 64 - 2 ^ 32)

abbrev pub sext16 : ℕ → ℕ
sext16 w = if ltb w (2 ^ 15) then w else w + (2 ^ 64 - 2 ^ 16)
