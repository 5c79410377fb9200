-- ===== src/Base/Bits/Low.antt =====
-- The low bits of a result are the result on the low bits.
use Prim.Native.Nat.{
  ℕ, zero, suc, ◌+◌, ◌*◌, ◌/◌, ◌%◌, ◌^◌, ◌<◌, bit_and, bit_or, bit_xor, differ, min, max,
}
use mathlib.Core.Path.{◌≡◌, refl, ap, sym, ◌∙◌}
use native.Mathlib.Nat.{
  pow-succ', one-le-pow, div-div-eq-div-mul, div-add-mod, add-mul-mod_self_left, mod-one, mul_assoc,
  add-mul,
}
use native.Mathlib.Omega.{arith}
use ve_bpf.Base.Bits.Digit.{bit_and-digit, bit_or-digit, bit_xor-digit, differ-lt}

mod_double : (x p : ℕ) → 0 < p → x % (2 * p) ≡ x % 2 + 2 * (x / 2 % p)
mod_double x p h =
    let whole : 2 * p * (x / 2 / p) + x % (2 * p) ≡ x =
      rw (div-div-eq-div-mul x 2 p) (div-add-mod x (2 * p)) in
    omega (arith, div-add-mod (x / 2) p)

mod_suc : (k x : ℕ) → x % 2 ^ suc k ≡ x % 2 + 2 * (x / 2 % 2 ^ k)
mod_suc k x =
    ap (λ (n : ℕ). x % n) (pow-succ' 2 k) ∙ mod_double x (2 ^ k) (one-le-pow k 2 (omega arith))

-- An operation on bits, by its lowest digit.
module _ (op digit : ℕ → ℕ → ℕ)
    (lowest : (a b : ℕ) → op a b ≡ op (a / 2) (b / 2) * 2 + digit (a % 2) (b % 2))
    (small : (a b : ℕ) → digit (a % 2) (b % 2) < 2) where
  op-mod : (k a b : ℕ) → op 0 0 ≡ 0 → op (a % 2 ^ k) (b % 2 ^ k) ≡ op a b % 2 ^ k
  op-mod zero a b z = rw (mod-one a, mod-one b, mod-one (op a b)) z
  op-mod (suc k) a b z =
      let l : a % 2 ^ suc k ≡ a % 2 + 2 * (a / 2 % 2 ^ k) = mod_suc k a in
      let r : b % 2 ^ suc k ≡ b % 2 + 2 * (b / 2 % 2 ^ k) = mod_suc k b in
      let l2 : a % 2 ^ suc k / 2 ≡ a / 2 % 2 ^ k = omega arith in
      let r2 : b % 2 ^ suc k / 2 ≡ b / 2 % 2 ^ k = omega arith in
      let l1 : a % 2 ^ suc k % 2 ≡ a % 2 = omega arith in
      let r1 : b % 2 ^ suc k % 2 ≡ b % 2 = omega arith in
      let bits = lowest (a % 2 ^ suc k) (b % 2 ^ suc k) in
      let inner : op (a % 2 ^ suc k) (b % 2 ^ suc k)
          ≡ op (a / 2) (b / 2) % 2 ^ k * 2 + digit (a % 2) (b % 2) =
        rw (lowest (a % 2 ^ suc k) (b % 2 ^ suc k), l2, r2, l1, r1, op-mod k (a / 2) (b / 2) z)
          refl in
      let half : op a b / 2 ≡ op (a / 2) (b / 2) = omega (arith, lowest a b, small a b) in
      let bit : op a b % 2 ≡ digit (a % 2) (b % 2) = omega (arith, lowest a b, small a b) in
      let whole : op a b % 2 ^ suc k ≡ digit (a % 2) (b % 2) + 2 * (op (a / 2) (b / 2) % 2 ^ k) =
        rw (mod_suc k (op a b), half, bit) refl in
      omega (arith, inner, whole)

pub mul-mod_low : (a n m : ℕ) → a % m * n % m ≡ a * n % m
mul-mod_low a n m =
    sym (add-mul-mod_self_left (a % m * n) m (a / m * n))
    ∙ ap (λ (x : ℕ). x % m)
        (omega (
          arith,
          mul_assoc m (a / m) n,
          add-mul (m * (a / m)) (a % m) n,
          ap (λ (x : ℕ). x * n) (div-add-mod a m),
        ))

pub bit_and-mod : (k a b : ℕ) → bit_and (a % 2 ^ k) (b % 2 ^ k) ≡ bit_and a b % 2 ^ k
bit_and-mod k a b = op-mod bit_and min bit_and-digit (λ x y. ground arith) k a b refl

pub bit_or-mod : (k a b : ℕ) → bit_or (a % 2 ^ k) (b % 2 ^ k) ≡ bit_or a b % 2 ^ k
bit_or-mod k a b = op-mod bit_or max bit_or-digit (λ x y. ground arith) k a b refl

pub bit_xor-mod : (k a b : ℕ) → bit_xor (a % 2 ^ k) (b % 2 ^ k) ≡ bit_xor a b % 2 ^ k
bit_xor-mod k a b = op-mod bit_xor differ bit_xor-digit differ-lt k a b refl
