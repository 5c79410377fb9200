-- ===== src/Vm/State/Laws.antt =====
-- About the table of external functions: `ubpf_register` and `ubpf_lookup_registered_function`
-- (tools/ubpf/vm/ubpf_vm.c).
use mathlib.Core.Path.{subst}
use ve_bpf.Base.{
  ℕ, zero, suc, ◌+◌, ◌<◌, ◌≤◌, ◌≡◌, refl, ◌≢◌, ◌↔◌, inl, inr, true, Option, none, some, [], ◌∷◌,
  arith, Bool-cases, Option-cases,
}
use ve_bpf.Vm.State.{
  Vm, Name, ExtFunc, max_ext_funcs, register, str_eq, lookup_from, lookup_registered_function,
  name_is,
}

pub str_eq_iff : (a b : Name) → (str_eq a b ≡ true) ↔ (a ≡ b)
unfolding str_eq
str_eq_iff [] [] = (λ _. refl, λ _. refl)
str_eq_iff [] (y ∷ ys) = (λ h. cc, λ h. cc)
str_eq_iff (x ∷ xs) [] = (λ h. cc, λ h. cc)
str_eq_iff (x ∷ xs) (y ∷ ys) = ground (arith, str_eq_iff xs ys)

name_is_iff : (o : Option Name) (name : Name) → (name_is o name ≡ true) ↔ (o ≡ some name)
name_is_iff none name = (λ h. cc, λ h. cc)
name_is_iff (some other) name = ground (arith, str_eq_iff other name)

-- The loop finds the least index from `i` on with the name.
pub lookup_from-some :
    (names : ℕ → Option Name) (name : Name) (rounds i j : ℕ)
    → lookup_from names name rounds i ≡ some j
    → (names j ≡ some name)
      × (i ≤ j)
      × (j < i + rounds)
      × ((k : ℕ) → i ≤ k → k < j → names k ≢ some name)
unfolding lookup_from
lookup_from-some names name zero i j h = cc
lookup_from-some names name (suc rounds) i j h = elim (Bool-cases (name_is (names i) name)) [
  | inl found ↦
      let same : i ≡ j = ground arith in
      (
        rw (← same) ((name_is_iff (names i) name).0 found),
        omega arith,
        omega arith,
        λ k p q. absurd (omega arith),
      )
  | inr other ↦
      let rest : lookup_from names name rounds (i + 1) ≡ some j = ground arith in
      let (at, above, below, least) = lookup_from-some names name rounds (i + 1) j rest in
      (at, omega arith, omega arith, λ k p q e. ground (arith, least k, name_is_iff (names k) name))
]

pub lookup_from-none :
    (names : ℕ → Option Name) (name : Name) (rounds i : ℕ)
    → lookup_from names name rounds i ≡ none
    → (k : ℕ) → i ≤ k
    → k < i + rounds
    → names k ≢ some name
unfolding lookup_from
lookup_from-none names name zero i h k a b e = absurd (omega arith)
lookup_from-none names name (suc rounds) i h k a b e =
    ground (
      arith,
      name_is_iff (names k) name,
      lookup_from-none names name rounds (i + 1) (ground arith) k,
    )

-- What a search for a name promises: the least index below 64 that holds it; none, when no index
-- below 64 does.
abbrev pub IsLookup : Vm → Name → Option ℕ → Type 0
IsLookup vm name none = (k : ℕ) → k < max_ext_funcs → vm.ext_func_names k ≢ some name
IsLookup vm name (some j) =
    (vm.ext_func_names j ≡ some name)
    × (j < max_ext_funcs)
    × ((k : ℕ) → k < j → vm.ext_func_names k ≢ some name)

lookup_from-IsLookup :
    (vm : Vm) (name : Name) (o : Option ℕ)
    → lookup_from vm.ext_func_names name max_ext_funcs 0 ≡ o
    → IsLookup vm name o
lookup_from-IsLookup vm name none h =
    λ k l. lookup_from-none vm.ext_func_names name max_ext_funcs 0 h k (omega arith) (omega arith)
lookup_from-IsLookup vm name (some j) h =
    let (at, _, below, least) = lookup_from-some vm.ext_func_names name max_ext_funcs 0 j h in
    (at, omega arith, λ k l. least k (omega arith) l)

-- `ubpf_lookup_registered_function` finds a name at the least index below 64 that holds it, and
-- returns -1 when no index below 64 does.
pub lookup_registered_function_lem :
    (vm : Vm) (name : Name) → IsLookup vm name (lookup_registered_function vm name)
unfolding lookup_registered_function
lookup_registered_function_lem vm name = lookup_from-IsLookup vm name _ refl

register-name :
    (vm : Vm) (idx : ℕ) (name : Name) (fn : Option ExtFunc)
    → idx < max_ext_funcs
    → (register vm idx (some name) fn).0.ext_func_names idx ≡ some name
unfolding register
register-name vm idx name fn h = ground arith

-- After a registration below index 64 the name is found, at the index given or at a smaller one.
pub register-lookup :
    (vm : Vm) (idx : ℕ) (name : Name) (fn : Option ExtFunc)
    → idx < max_ext_funcs
    → (j : ℕ) × (lookup_registered_function (register vm idx (some name) fn).0 name ≡ some j)
      × (j ≤ idx)
register-lookup vm idx name fn h =
    let vm' = (register vm idx (some name) fn).0 in
    let holds : vm'.ext_func_names idx ≡ some name = register-name vm idx name fn h in
    let found = lookup_registered_function_lem vm' name in
    elim (Option-cases (lookup_registered_function vm' name)) [
      | inl e ↦ absurd (subst (IsLookup vm' name) e found idx h holds)
      | inr (j, e) ↦
          let (_, _, least) = subst (IsLookup vm' name) e found in
          (j, e, not_above j (λ l. least idx l holds))
    ]
  where
    not_above : (j : ℕ) → ¬ (idx < j) → j ≤ idx
    not_above j n = omega arith
