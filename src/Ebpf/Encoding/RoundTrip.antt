-- ===== src/Ebpf/Encoding/RoundTrip.antt =====
-- About instructions and words as bytes: the reads and copies of `ubpf_load` and `ubpf_exec`.
use mathlib.Core.List.{reverse, reverse-cons}
use mathlib.Core.Option
use mathlib.Core.Path.{ap₂, subst}
use native.Mathlib.Nat.{pow-suc, div-add-mod, div-div-eq-div-mul}
use ve_bpf.Base.{
  ℕ, zero, suc, ◌+◌, ◌*◌, ◌/◌, ◌%◌, ◌^◌, ◌<◌, ◌≡◌, refl, ap, ◌∙◌, List, [], ◌∷◌, ◌++◌, Option, none,
  some, arith, length, length-append, get_elem?,
}
use ve_bpf.Ebpf.{Inst, IsInst}
use ve_bpf.Ebpf.Encoding.{
  to_bytes, of_bytes, inst_of_bytes, inst_bytes, insts_of_bytes, insts_bytes,
}

abbrev pub AreBytes : List ℕ → Type 0
AreBytes [] = Unit
AreBytes (b ∷ bs) = (b < 256) × AreBytes bs

abbrev pub AreInsts : List Inst → Type 0
AreInsts [] = Unit
AreInsts (i ∷ is) = IsInst i × AreInsts is

pub mod_digit : (x p : ℕ) → 0 < p → x % (256 * p) ≡ x % 256 + 256 * (x / 256 % p)
mod_digit x p h =
    let whole : 256 * p * (x / 256 / p) + x % (256 * p) ≡ x =
      rw (div-div-eq-div-mul x 256 p) (div-add-mod x (256 * p)) in
    omega (arith, div-add-mod (x / 256) p)

pub of_bytes-to_bytes : (n x : ℕ) → of_bytes (to_bytes n x) ≡ x % 256 ^ n
unfolding of_bytes to_bytes
of_bytes-to_bytes zero x = omega arith
of_bytes-to_bytes (suc n) x = grind (arith, of_bytes-to_bytes n (x / 256), pow-suc 256 n, mod_digit)

pub to_bytes-of_bytes : (bs : List ℕ) → AreBytes bs → to_bytes (length bs) (of_bytes bs) ≡ bs
unfolding of_bytes to_bytes
to_bytes-of_bytes [] h = refl
to_bytes-of_bytes (b ∷ bs) h =
    ap₂ ◌∷◌ (omega arith) (ap (to_bytes (length bs)) (omega arith) ∙ to_bytes-of_bytes bs h.1)

pub to_bytes-AreBytes : (n x : ℕ) → AreBytes (to_bytes n x)
unfolding to_bytes
to_bytes-AreBytes zero x = tt
to_bytes-AreBytes (suc n) x = (omega arith, to_bytes-AreBytes n (x / 256))

pub length-to_bytes : (n x : ℕ) → length (to_bytes n x) ≡ n
unfolding to_bytes
length-to_bytes zero x = refl
length-to_bytes (suc n) x = ap suc (length-to_bytes n (x / 256))

pub of_bytes-lt : (bs : List ℕ) → AreBytes bs → of_bytes bs < 256 ^ length bs
unfolding of_bytes
of_bytes-lt [] h = omega arith
of_bytes-lt (b ∷ bs) h = omega (arith, of_bytes-lt bs h.1, pow-suc 256 (length bs))

same_fields :
    (i : Inst)
    → IsInst i
    → inst_of_bytes i.opcode
        (i.dst + 16 * i.src)
        (i.offset % 256)
        (i.offset / 256 % 256)
        (i.imm % 256)
        (i.imm / 256 % 256)
        (i.imm / 256 / 256 % 256)
        (i.imm / 256 / 256 / 256 % 256)
      ≡ i
unfolding inst_of_bytes
same_fields i h = ground arith

insts_of_bytes-cons :
    (i : Inst) (rest : List ℕ)
    → IsInst i
    → insts_of_bytes (inst_bytes i ++ rest) ≡ Option.map (λ is. i ∷ is) (insts_of_bytes rest)
unfolding inst_bytes insts_of_bytes
insts_of_bytes-cons i rest h =
    ap (λ (j : Inst). Option.map (λ (is : List Inst). j ∷ is) (insts_of_bytes rest))
      (same_fields i h)

-- The bytes of instructions whose fields fit their widths are read back as the same instructions.
pub insts_of_bytes-insts_bytes :
    (is : List Inst) → AreInsts is → insts_of_bytes (insts_bytes is) ≡ some is
unfolding insts_bytes
insts_of_bytes-insts_bytes [] h = unfold insts_of_bytes in refl
insts_of_bytes-insts_bytes (i ∷ is) h =
    insts_of_bytes-cons i (insts_bytes is) h.0
    ∙ ap (Option.map (λ (js : List Inst). i ∷ js)) (insts_of_bytes-insts_bytes is h.1)

pub AreInsts-get_elem? :
    (is : List Inst) (k : ℕ) {x : Inst} → AreInsts is → get_elem? is k ≡ some x → IsInst x
AreInsts-get_elem? [] k h e = cc
AreInsts-get_elem? (i ∷ is) zero {x} h e = let same : i ≡ x = cc in subst IsInst same h.0
AreInsts-get_elem? (i ∷ is) (suc k) h e = AreInsts-get_elem? is k h.1 e

pub length-insts_bytes : (is : List Inst) → length (insts_bytes is) ≡ 8 * length is
unfolding insts_bytes inst_bytes to_bytes
length-insts_bytes [] = refl
length-insts_bytes (i ∷ is) = omega (arith, length-insts_bytes is)

AreBytes-append : (xs ys : List ℕ) → AreBytes xs → AreBytes ys → AreBytes (xs ++ ys)
AreBytes-append [] ys h k = k
AreBytes-append (x ∷ xs) ys h k = (h.0, AreBytes-append xs ys h.1 k)

pub AreBytes-reverse : (xs : List ℕ) → AreBytes xs → AreBytes (reverse xs)
AreBytes-reverse [] h = tt
AreBytes-reverse (x ∷ xs) h =
    rw reverse-cons (AreBytes-append (reverse xs) (x ∷ []) (AreBytes-reverse xs h.1) (h.0, tt))

pub length-reverse : (xs : List ℕ) → length (reverse xs) ≡ length xs
length-reverse [] = refl
length-reverse (x ∷ xs) =
    ap length (reverse-cons x xs)
    ∙ omega (arith, length-append (reverse xs) (x ∷ []), length-reverse xs)

inst_of_bytes-IsInst :
    (b0 b1 b2 b3 b4 b5 b6 b7 : ℕ)
    → AreBytes (b0 ∷ b1 ∷ b2 ∷ b3 ∷ b4 ∷ b5 ∷ b6 ∷ b7 ∷ [])
    → IsInst (inst_of_bytes b0 b1 b2 b3 b4 b5 b6 b7)
unfolding inst_of_bytes of_bytes
inst_of_bytes-IsInst b0 b1 b2 b3 b4 b5 b6 b7 h = ground arith

AreRead : Option (List Inst) → Type 0
AreRead none = Unit
AreRead (some is) = AreInsts is

AreRead-cons :
    (i : Inst) (o : Option (List Inst))
    → IsInst i
    → AreRead o
    → AreRead (Option.map (λ (is : List Inst). i ∷ is) o)
unfolding AreRead
AreRead-cons i none f r = tt
AreRead-cons i (some is) f r = (f, r)

insts_of_bytes-AreRead : (code : List ℕ) → AreBytes code → AreRead (insts_of_bytes code)
unfolding insts_of_bytes AreRead
insts_of_bytes-AreRead [] h = tt
insts_of_bytes-AreRead (b0 ∷ b1 ∷ b2 ∷ b3 ∷ b4 ∷ b5 ∷ b6 ∷ b7 ∷ rest)
      (h0, (h1, (h2, (h3, (h4, (h5, (h6, (h7, h)))))))) =
    AreRead-cons (inst_of_bytes b0 b1 b2 b3 b4 b5 b6 b7) (insts_of_bytes rest)
      (inst_of_bytes-IsInst b0 b1 b2 b3 b4 b5 b6 b7
        (h0, (h1, (h2, (h3, (h4, (h5, (h6, (h7, tt)))))))))
      (insts_of_bytes-AreRead rest h)
insts_of_bytes-AreRead _ h = tt

pub insts_of_bytes-AreInsts :
    (code : List ℕ) (is : List Inst) → AreBytes code → insts_of_bytes code ≡ some is → AreInsts is
unfolding AreRead
insts_of_bytes-AreInsts code is h e = subst AreRead e (insts_of_bytes-AreRead code h)
