-- ===== src/Jit/Registers.antt =====
-- `register_map` and `ubpf_set_register_offset` (tools/ubpf/vm/ubpf_jit_x86_64.c).
use ve_bpf.Base.{
  ℕ, zero, suc, ◌+◌, ◌-◌, ◌%◌, ◌^◌, ◌<◌, ◌≤◌, ◌≡◌, refl, ◌∙◌, Bool, true, false, Option, none, some,
  [], ◌∷◌, ltb, leb, ◌==◌, if◌then◌else◌, get_elem?, arith,
}
use ve_bpf.Vm.Memory.{update}
use ve_bpf.Jit.Emit.{rax, rdx, rbx, rbp, rsi, rdi, r8, r9, r13, r14, r15}

-- `register_map` as the process starts.
abbrev pub register_map : ℕ → ℕ
register_map r =
    elim (get_elem? (rax ∷ rdi ∷ rsi ∷ rdx ∷ r9 ∷ r8 ∷ rbx ∷ r13 ∷ r14 ∷ r15 ∷ rbp ∷ []) r) [
      | none ↦ 0
      | some register ↦ register
    ]

-- The loop for a small offset, on a copy of the map.
unfoldable pub rotate : ℕ → (ℕ → ℕ) → ℕ → ℕ
rotate x tmp i = if ltb i 11 then tmp ((i + x) % 11) else tmp i

unfoldable pub swap : (ℕ → ℕ) → ℕ → ℕ → ℕ → ℕ
swap map i j = update (update map j (map i)) i (map j)

-- `rand_r` gives a number and the next seed.
module _ (rand_r : ℕ → ℕ × ℕ) where
  -- The loop of the shuffle, from index `i` with `rounds` left.
  unfoldable pub shuffle : ℕ → ℕ → ℕ → (ℕ → ℕ) → ℕ → ℕ
  shuffle zero i seed map = map
  shuffle (suc rounds) i seed map =
      let (number, seed') = rand_r seed in
      shuffle rounds (i + 1) seed' (swap map i (i + number % (11 - i)))

  -- `x` is the pattern of an `int`. Under a negative one, an index into the copy is negative: none.
  unfoldable pub set_register_offset : ℕ → (ℕ → ℕ) → Option (ℕ → ℕ)
  set_register_offset x map =
      if leb (2 ^ 31) x
      then none
      else (if ltb x 11 then some (rotate x map) else some (shuffle 10 0 x map))

-- `after` has the 11 registers of `before`, in another order.
pub record IsRearranged (before after : ℕ → ℕ) : Type 0 where
  pub index : ℕ → ℕ
  pub within : (i : ℕ) → i < 11 → index i < 11
  pub distinct : (i j : ℕ) → i < 11 → j < 11 → index i ≡ index j → i ≡ j
  pub same : (i : ℕ) → i < 11 → after i ≡ before (index i)

IsRearranged-refl : (map : ℕ → ℕ) → IsRearranged map map
IsRearranged-refl map = record {
  index = λ i. i;
  within = λ i h. h;
  distinct = λ i j h k e. e;
  same = λ i h. refl;
}

IsRearranged-trans : (a b c : ℕ → ℕ) → IsRearranged a b → IsRearranged b c → IsRearranged a c
IsRearranged-trans a b c p q = record {
  index = λ i. p.index (q.index i);
  within = λ i h. p.within (q.index i) (q.within i h);
  distinct = λ i j h k e.
      q.distinct i j h k (p.distinct (q.index i) (q.index j) (q.within i h) (q.within j k) e);
  same = λ i h. q.same i h ∙ p.same (q.index i) (q.within i h);
}

rotate-IsRearranged : (x : ℕ) (map : ℕ → ℕ) → x < 11 → IsRearranged map (rotate x map)
unfolding rotate
rotate-IsRearranged x map small = record {
  index = λ i. (i + x) % 11;
  within = λ i h. omega arith;
  distinct = λ i j h k e. omega arith;
  same = λ i h. ground arith;
}

abbrev exchange : ℕ → ℕ → ℕ → ℕ
exchange i j k = if i == k then j else (if j == k then i else k)

swap-IsRearranged : (map : ℕ → ℕ) (i j : ℕ) → i < 11 → j < 11 → IsRearranged map (swap map i j)
unfolding swap
swap-IsRearranged map i j a b = record {
  index = exchange i j;
  within = λ k h. ground arith;
  distinct = λ k l h m e. ground arith;
  same = λ k h. ground arith;
}

choice_IsRearranged :
    (map : ℕ → ℕ) (b : Bool) (m k : ℕ → ℕ)
    → (b ≡ true → IsRearranged map m)
    → (b ≡ false → IsRearranged map k)
    → (map' : ℕ → ℕ) × ((if b then some m else some k) ≡ some map') × IsRearranged map map'
choice_IsRearranged map true m k p q = (m, refl, p refl)
choice_IsRearranged map false m k p q = (k, refl, q refl)

module _ (rand_r : ℕ → ℕ × ℕ) where
  shuffle-IsRearranged :
      (rounds i seed : ℕ) (map : ℕ → ℕ)
      → i + rounds ≤ 10
      → IsRearranged map (shuffle rand_r rounds i seed map)
  unfolding shuffle
  shuffle-IsRearranged zero i seed map h = IsRearranged-refl map
  shuffle-IsRearranged (suc rounds) i seed map h =
      let (number, seed') = rand_r seed in
      IsRearranged-trans map (swap map i (i + number % (11 - i))) _
        (swap-IsRearranged map i (i + number % (11 - i)) (omega arith) (omega arith))
        (shuffle-IsRearranged rounds (i + 1) seed' (swap map i (i + number % (11 - i)))
          (omega arith))

  -- With an offset that is not negative, `ubpf_set_register_offset` puts the 11 registers of the map in
  -- another order, each still once, whatever `rand_r` gives.
  pub set_register_offset-IsRearranged :
      (x : ℕ) (map : ℕ → ℕ)
      → x < 2 ^ 31
      → (map' : ℕ → ℕ) × (set_register_offset rand_r x map ≡ some map') × IsRearranged map map'
  unfolding set_register_offset
  set_register_offset-IsRearranged x map h =
      let (map', chosen, rearranged) =
        choice_IsRearranged map (ltb x 11) (rotate x map) (shuffle rand_r 10 0 x map)
          (λ b. rotate-IsRearranged x map (ground arith))
          (λ b. shuffle-IsRearranged 10 0 x map (omega arith)) in
      (map', ground arith, rearranged)
