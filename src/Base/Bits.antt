-- ===== src/Base/Bits.antt =====
-- The native `bit_and`, `bit_or` and `bit_xor` at variables: widths, and masks of low bits.
mod Digit
pub mod Low
use Prim.Native.Nat.{
  ℕ, zero, suc, ◌+◌, ◌-◌, ◌*◌, ◌/◌, ◌%◌, ◌^◌, ◌≤◌, ◌<◌, bit_and, bit_or, bit_xor, differ,
  bit_and-bitwise, bit_or-bitwise,
}
use mathlib.Core.Path.{◌≡◌, refl, ap}
use native.Mathlib.Nat.{pow-suc, one-le-pow}
use native.Mathlib.Omega.{arith}
use Digit.{bit_and-digit, bit_or-digit, bit_xor-digit, differ-lt}

zero-bit_and : (b : ℕ) → bit_and 0 b ≡ 0
zero-bit_and b = bit_and-bitwise 0 b

zero-bit_or : (b : ℕ) → bit_or 0 b ≡ b
zero-bit_or b = bit_or-bitwise 0 b

pub bit_and-lt : (k a b : ℕ) → a < 2 ^ k → bit_and a b < 2 ^ k
bit_and-lt zero zero b h = omega (arith, zero-bit_and b)
bit_and-lt zero (suc a) b h = absurd (omega arith)
bit_and-lt (suc k) a b h =
    omega (arith, bit_and-digit a b, pow-suc 2 k, bit_and-lt k (a / 2) (b / 2))

pub bit_or-lt : (k a b : ℕ) → a < 2 ^ k → b < 2 ^ k → bit_or a b < 2 ^ k
bit_or-lt zero zero zero h g = omega arith
bit_or-lt zero zero (suc b) h g = absurd (omega arith)
bit_or-lt zero (suc a) b h g = absurd (omega arith)
bit_or-lt (suc k) a b h g =
    omega (arith, bit_or-digit a b, pow-suc 2 k, bit_or-lt k (a / 2) (b / 2))

pub bit_xor-lt : (k a b : ℕ) → a < 2 ^ k → b < 2 ^ k → bit_xor a b < 2 ^ k
bit_xor-lt zero zero zero h g = omega arith
bit_xor-lt zero zero (suc b) h g = absurd (omega arith)
bit_xor-lt zero (suc a) b h g = absurd (omega arith)
bit_xor-lt (suc k) a b h g =
    omega (arith, bit_xor-digit a b, differ-lt a b, pow-suc 2 k, bit_xor-lt k (a / 2) (b / 2))

pow_field : (k q : ℕ) → q * 2 ^ suc k ≡ 2 * (q * 2 ^ k)
pow_field k q = omega (arith, ap (λ (t : ℕ). q * t) (pow-suc 2 k))

-- A number of `k` bits under a field from bit `k` on: `|` is `+`.
pub bit_or-shifted : (k lo hi : ℕ) → lo < 2 ^ k → bit_or lo (hi * 2 ^ k) ≡ lo + hi * 2 ^ k
bit_or-shifted zero zero hi h = rw zero-bit_or (omega arith)
bit_or-shifted zero (suc lo) hi h = absurd (omega arith)
bit_or-shifted (suc k) lo hi h = ground (
  arith,
  bit_or-digit lo (hi * 2 ^ suc k),
  pow-suc 2 k,
  pow_field k hi,
  bit_or-shifted k (lo / 2) hi,
)

bit_and-zero : (n a : ℕ) → a ≤ n → bit_and a 0 ≡ 0
bit_and-zero n zero h = refl
bit_and-zero zero (suc a) h = absurd (omega arith)
bit_and-zero (suc n) (suc a) h =
    omega (arith, bit_and-digit (suc a) 0, bit_and-zero n (suc a / 2) (omega arith))

mask_field : (k q r : ℕ) → r < 2 ^ k → bit_and (q * 2 ^ k + r) (2 ^ k - 1) ≡ r
mask_field zero q r h = omega (arith, bit_and-zero (q * 1 + r) (q * 1 + r) (omega arith))
mask_field (suc k) q r h = ground (
  arith,
  bit_and-digit (q * 2 ^ suc k + r) (2 ^ suc k - 1),
  pow_field k q,
  pow-suc 2 k,
  one-le-pow k 2,
  mask_field k q (r / 2) (omega (arith, pow-suc 2 k)),
)

-- A mask of the `k` low bits is the remainder by `2 ^ k`.
pub bit_and-mask : (k a : ℕ) → bit_and a (2 ^ k - 1) ≡ a % 2 ^ k
bit_and-mask k a = ground (arith, one-le-pow k 2, mask_field k (a / 2 ^ k) (a % 2 ^ k))
