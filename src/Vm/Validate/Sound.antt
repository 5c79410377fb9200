-- ===== src/Vm/Validate/Sound.antt =====
-- About what `validate` (tools/ubpf/vm/ubpf_vm.c) has checked when it returns true.
use mathlib.Core.Path.{subst}
use native.Mathlib.Nat.{suc-add}
use ve_bpf.Base.{
  ℕ, zero, suc, ◌+◌, ◌<◌, ◌≡◌, refl, sym, ap, ◌∙◌, ◌≢◌, Bool, true, false, Option, none, some, List,
  [], ◌∷◌, arith, length, get_elem?, if◌then◌else◌,
}
use ve_bpf.Ebpf.{Inst}
use ve_bpf.Ebpf.Opcode.{decode, lddw, Opcode}
use ve_bpf.Vm.State.{Vm, max_insts}
use ve_bpf.Vm.Validate.{valid, check_opcode, check_inst, check_from, validate, is_lddw, width}

decode-zero : decode 0 ≡ none
unfolding decode
decode-zero = refl

module _ (vm : Vm) (insts : List Inst) where
  check_inst-opcode :
      (i : ℕ) (inst : Inst) → check_inst vm insts i inst ≡ valid tt → inst.opcode ≢ 0
  unfolding check_inst
  check_inst-opcode i inst h e = ground (arith, decode-zero)

  pub check_opcode-lddw :
      (i : ℕ) (inst : Inst)
      → check_opcode vm insts i inst (some lddw) ≡ valid tt
      → (second : Inst) × (get_elem? insts (i + 1) ≡ some second) × (second.opcode ≡ 0)
  unfolding check_opcode
  check_opcode-lddw i inst h = ground arith

  is_lddw-eq : (o : Option Opcode) → is_lddw o ≡ true → o ≡ some lddw
  is_lddw-eq o h = ground arith

  pub second_slot :
      (i : ℕ) (inst : Inst)
      → check_inst vm insts i inst ≡ valid tt
      → is_lddw (decode inst.opcode) ≡ true
      → (second : Inst) × (get_elem? insts (i + 1) ≡ some second) × (second.opcode ≡ 0)
  unfolding check_inst
  second_slot i inst h l =
      check_opcode-lddw i inst (ground (arith, is_lddw-eq (decode inst.opcode)))

  -- `rest` is what is left of the code at index `i`.
  abbrev pub IsRest : ℕ → List Inst → Type 0
  IsRest i rest = (k : ℕ) → get_elem? insts (i + k) ≡ get_elem? rest k

  abbrev pub SkipsZero : Bool → List Inst → Type 0
  SkipsZero skip rest = skip ≡ true → (inst : Inst) → get_elem? rest 0 ≡ some inst → inst.opcode ≡ 0

  pub IsRest-tail :
      (i : ℕ) (x : Inst) (rest : List Inst) → IsRest i (x ∷ rest) → IsRest (i + 1) rest
  IsRest-tail i x rest r k = ap (get_elem? insts) (omega arith) ∙ r (suc k)

  SkipsZero-tail :
      (i : ℕ) (x : Inst) (rest : List Inst)
      → IsRest i (x ∷ rest)
      → check_inst vm insts i x ≡ valid tt
      → SkipsZero (is_lddw (decode x.opcode)) rest
  SkipsZero-tail i x rest r h l inst e =
      let (second, at, zero_opcode) = second_slot i x h l in ground (arith, r 1)

  check_from-head :
      (i : ℕ) (x : Inst) (rest : List Inst)
      → check_from vm insts false i (x ∷ rest) ≡ valid tt
      → (check_inst vm insts i x ≡ valid tt)
        × (check_from vm insts (is_lddw (decode x.opcode)) (i + 1) rest ≡ valid tt)
  unfolding check_from
  check_from-head i x rest h = ground arith

  -- Every instruction with an opcode other than 0 has been checked at its index.
  check_from-checked :
      (rest : List Inst) (skip : Bool) (i : ℕ)
      → IsRest i rest
      → SkipsZero skip rest
      → check_from vm insts skip i rest ≡ valid tt
      → (k j : ℕ) (inst : Inst) → i + k ≡ j
      → get_elem? rest k ≡ some inst
      → inst.opcode ≢ 0
      → check_inst vm insts j inst ≡ valid tt
  unfolding check_from
  check_from-checked [] skip i r s h k j inst p e o = cc
  check_from-checked (x ∷ rest) true i r s h zero j inst p e o = absurd (o (s refl inst e))
  check_from-checked (x ∷ rest) true i r s h (suc k) j inst p e o =
      check_from-checked rest false (i + 1) (IsRest-tail i x rest r) (λ q. cc) h k j inst
        (omega arith) e o
  check_from-checked (x ∷ rest) false i r s h zero j inst p e o =
      let here : i ≡ j = omega arith in rw (← here) (ground (arith, check_from-head i x rest))
  check_from-checked (x ∷ rest) false i r s h (suc k) j inst p e o =
      let (head, tail) = check_from-head i x rest h in
      check_from-checked rest (is_lddw (decode x.opcode)) (i + 1) (IsRest-tail i x rest r)
        (SkipsZero-tail i x rest r head) tail k j inst (omega arith) e o

  -- The head of what is left, when no slot is passed over.
  check_from-head_opcode :
      (i : ℕ) (rest : List Inst)
      → check_from vm insts false i rest ≡ valid tt
      → (inst : Inst) → get_elem? rest 0 ≡ some inst
      → inst.opcode ≢ 0
  check_from-head_opcode i [] h inst e = cc
  check_from-head_opcode i (x ∷ rest) h inst e =
      ground (arith, check_from-head i x rest, check_inst-opcode i x)

  check_from-after :
      (skip : Bool) (i : ℕ) (rest : List Inst)
      → check_from vm insts skip i rest ≡ valid tt
      → (inst : Inst) → get_elem? rest (if skip then 1 else 0) ≡ some inst
      → inst.opcode ≢ 0
  unfolding check_from
  check_from-after true i [] h inst e = cc
  check_from-after true i (y ∷ rest) h inst e = check_from-head_opcode (i + 1) rest h inst e
  check_from-after false i rest h inst e = check_from-head_opcode i rest h inst e

  after_width :
      (skip : Bool) (w : Inst) (rest : List Inst)
      → get_elem? (w ∷ rest) (0 + (if skip then 2 else 1)) ≡ get_elem? rest (if skip then 1 else 0)
  after_width true w rest = refl
  after_width false w rest = refl

  -- The slot that follows an instruction, past the second slot of an `lddw`, is no second slot.
  check_from-next :
      (rest : List Inst) (skip : Bool) (i : ℕ)
      → IsRest i rest
      → SkipsZero skip rest
      → check_from vm insts skip i rest ≡ valid tt
      → (k : ℕ) (x y : Inst) → get_elem? rest k ≡ some x
      → x.opcode ≢ 0
      → get_elem? rest (k + width x) ≡ some y
      → y.opcode ≢ 0
  unfolding check_from
  check_from-next [] skip i r s h k x y e o f = cc
  check_from-next (w ∷ rest) true i r s h zero x y e o f = absurd (o (s refl x e))
  check_from-next (w ∷ rest) true i r s h (suc k) x y e o f =
      check_from-next rest false (i + 1) (IsRest-tail i w rest r) (λ q. cc) h k x y e o
        (rw suc-add at f)
  check_from-next (w ∷ rest) false i r s h zero x y e o f =
      let (head, tail) = check_from-head i w rest h in
      let same : w ≡ x = cc in
      check_from-after (is_lddw (decode w.opcode)) (i + 1) rest tail y (
        sym (after_width (is_lddw (decode w.opcode)) w rest)
        ∙ subst (λ (z : Inst). get_elem? (w ∷ rest) (0 + width z) ≡ some y) (sym same) f)
  check_from-next (w ∷ rest) false i r s h (suc k) x y e o f =
      let (head, tail) = check_from-head i w rest h in
      check_from-next rest (is_lddw (decode w.opcode)) (i + 1) (IsRest-tail i w rest r)
        (SkipsZero-tail i w rest r head) tail k x y e o (rw suc-add at f)

-- What `validate` guarantees of the code. A position is the start of an instruction if its opcode is
-- not 0; the second slot of an `lddw` has opcode 0.
pub record IsValidated (vm : Vm) (insts : List Inst) : Type 0 where
  pub short : length insts < max_insts
  pub first : (x : Inst) → get_elem? insts 0 ≡ some x → x.opcode ≢ 0
  pub checked :
      (i : ℕ) (x : Inst)
      → get_elem? insts i ≡ some x
      → x.opcode ≢ 0
      → check_inst vm insts i x ≡ valid tt
  pub follows :
      (i : ℕ) (x y : Inst)
      → get_elem? insts i ≡ some x
      → x.opcode ≢ 0
      → get_elem? insts (i + width x) ≡ some y
      → y.opcode ≢ 0

validate_parts :
    (vm : Vm) (insts : List Inst)
    → validate vm insts ≡ valid tt
    → (length insts < max_insts) × (check_from vm insts false 0 insts ≡ valid tt)
unfolding validate
validate_parts vm insts h = ground arith

-- What `validate` passes has fewer than 65536 instructions and begins with an opcode that is not 0;
-- every instruction whose opcode is not 0 passes the checks of one round, and the one behind it,
-- two positions on for an `lddw`, has an opcode that is not 0 too.
pub validate-IsValidated :
    (vm : Vm) (insts : List Inst) → validate vm insts ≡ valid tt → IsValidated vm insts
validate-IsValidated vm insts h =
    let (small, loop) = validate_parts vm insts h in
    record {
      short = small;
      first = check_from-head_opcode vm insts 0 insts loop;
      checked = λ i x e o.
          check_from-checked vm insts insts false 0 start (λ p. cc) loop i i x (omega arith) e o;
      follows = check_from-next vm insts insts false 0 start (λ p. cc) loop;
    }
  where
    start : IsRest vm insts 0 insts
    start k = ap (get_elem? insts) (omega arith)

opcode-is_lddw : (opcode : ℕ) → is_lddw (decode opcode) ≡ true → opcode ≢ 0
opcode-is_lddw opcode l e = ground (arith, decode-zero)

-- The slot after an `lddw` of checked code.
pub IsValidated-SkipsZero :
    (vm : Vm) (insts : List Inst) (i : ℕ) (x : Inst) (rest : List Inst)
    → IsValidated vm insts
    → IsRest vm insts i (x ∷ rest)
    → SkipsZero vm insts (is_lddw (decode x.opcode)) rest
IsValidated-SkipsZero vm insts i x rest v r l =
    SkipsZero-tail vm insts i x rest r
      (v.checked i x (ap (get_elem? insts) (omega arith) ∙ r zero) (opcode-is_lddw x.opcode l)) l
