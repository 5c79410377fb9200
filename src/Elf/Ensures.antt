-- ===== src/Elf/Ensures.antt =====
-- What holds of the results of the parser's steps, and which accesses they may make.
use ve_bpf.Base.{
  zero, suc, ℕ, ◌+◌, ◌^◌, ◌≤◌, ◌<◌, ◌≡◌, ◌≢◌, refl, Bool, true, false, List, [], ◌∷◌, arith, length,
  take, drop, length-take, length-drop, ltb, leb, ◌||◌, if◌then◌else◌,
}
use mathlib.Core.Path.{subst}
use ve_bpf.Base.Word.{u64}
use ve_bpf.Ebpf.Encoding.{of_bytes}
use ve_bpf.Ebpf.Encoding.RoundTrip.{AreBytes, of_bytes-lt}
use ve_bpf.Elf.File.{
  ElfError, read, Parsed, parsed, failed, outside, ◌>>=◌, fail_if, field, bounds_check,
}

-- A result has the property; no access is a read of headers or tables outside the file.
abbrev pub Holds {ℓ} : {A : Type ℓ} → (A → Type 0) → Parsed A → Type 0
Holds P (parsed a) = P a
Holds P (failed e) = Unit
Holds P (outside w) = w ≢ read

pub record Ensures {ℓ} {A : Type ℓ} (P : A → Type 0) (m : Parsed A) : Type 0 where
  pub holds : Holds P m

bind-Holds {ℓ κ} :
    {A : Type ℓ} {B : Type κ} {P : A → Type 0} {Q : B → Type 0} (m : Parsed A) {f : A → Parsed B}
    → Holds P m
    → ((a : A) → P a → Ensures Q (f a))
    → Holds Q (m >>= f)
unfolding ◌>>=◌
bind-Holds (parsed a) p k = (k a p).holds
bind-Holds (failed e) p k = tt
bind-Holds (outside w) p k = p

pub Ensures-bind {ℓ κ} :
    {A : Type ℓ} {B : Type κ} {P : A → Type 0} {Q : B → Type 0} {m : Parsed A} {f : A → Parsed B}
    → Ensures P m
    → ((a : A) → P a → Ensures Q (f a))
    → Ensures Q (m >>= f)
Ensures-bind {P} {Q} {m} {f} p k = record { holds = bind-Holds {P = P} {Q = Q} m {f = f} p.holds k }

pub Ensures-parsed {ℓ} : {A : Type ℓ} {P : A → Type 0} {a : A} → P a → Ensures P (parsed a)
Ensures-parsed h = record { holds = h }

weaken-Holds {ℓ} :
    {A : Type ℓ} {P Q : A → Type 0} (m : Parsed A) → Holds P m → ((a : A) → P a → Q a) → Holds Q m
weaken-Holds (parsed a) p k = k a p
weaken-Holds (failed e) p k = tt
weaken-Holds (outside w) p k = p

pub Ensures-weaken {ℓ} :
    {A : Type ℓ} {P Q : A → Type 0} {m : Parsed A}
    → Ensures P m
    → ((a : A) → P a → Q a)
    → Ensures Q m
Ensures-weaken {P} {Q} {m} p k = record { holds = weaken-Holds {P = P} {Q = Q} m p.holds k }

pub Ensures-fail_if : (b : Bool) (e : ElfError) → Ensures (λ _. b ≡ false) (fail_if b e)
unfolding fail_if
Ensures-fail_if true e = record { holds = tt }
Ensures-fail_if false e = record { holds = refl }

pub AreBytes-drop : (n : ℕ) (xs : List ℕ) → AreBytes xs → AreBytes (drop n xs)
AreBytes-drop zero xs h = h
AreBytes-drop (suc n) [] h = tt
AreBytes-drop (suc n) (x ∷ xs) h = AreBytes-drop n xs h.1

pub AreBytes-take : (n : ℕ) (xs : List ℕ) → AreBytes xs → AreBytes (take n xs)
AreBytes-take zero xs h = tt
AreBytes-take (suc n) [] h = tt
AreBytes-take (suc n) (x ∷ xs) h = (h.0, AreBytes-take n xs h.1)

-- The file: a buffer of bytes whose size is a `size_t`.
pub record IsFile (elf : List ℕ) : Type 0 where
  pub bytes : AreBytes elf
  pub small : length elf < 2 ^ 64

pub Ensures-if {ℓ} :
    {A : Type ℓ} {P : A → Type 0} (b : Bool) {m k : Parsed A}
    → (b ≡ true → Ensures P m)
    → (b ≡ false → Ensures P k)
    → Ensures P (if b then m else k)
Ensures-if true h l = h refl
Ensures-if false h l = l refl

module _ (elf : List ℕ) (file : IsFile elf) where
  pub Ensures-field : (n at : ℕ) → at + n ≤ length elf → Ensures (λ x. x < 256 ^ n) (field n elf at)
  unfolding field
  Ensures-field n at h =
      let count : length (take n (drop at elf)) ≡ n =
        length-take n (drop at elf) (omega (arith, length-drop at elf)) in
      let small =
        of_bytes-lt (take n (drop at elf))
          (AreBytes-take n (drop at elf) (AreBytes-drop at elf file.bytes)) in
      Ensures-if (leb (at + n) (length elf))
        (λ _.
          Ensures-parsed (subst (λ (k : ℕ). of_bytes (take n (drop at elf)) < 256 ^ k) count small))
        (λ e. absurd (ground arith))

  pub Ensures-bounds_check :
      (offset size : ℕ) (e : ElfError)
      → offset < 2 ^ 64
      → size < 2 ^ 64
      → Ensures (λ p. (p ≡ offset) × (offset + size ≤ length elf)) (bounds_check elf offset size e)
  unfolding bounds_check
  Ensures-bounds_check offset size e p q =
      Ensures-if (ltb (length elf) (u64 (offset + size)) || ltb (u64 (offset + size)) offset)
        (λ _. record { holds = tt })
        (λ h. let small = file.small in Ensures-parsed (refl, ground arith))
