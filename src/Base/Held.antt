-- ===== src/Base/Held.antt =====
-- What a run of calls acquires and releases.
use mathlib.Core.Bool.{Bool, true, false}
use mathlib.Core.Option.{Option, none, some}
use mathlib.Core.List.{List, [], ◌∷◌}

pub data Event {ℓ} (A : Type ℓ) : Type ℓ where
  acquire release : A → Event A
  no_effect : Event A

module _ {ℓ} {A : Type ℓ} (same : A → A → Bool) where
  -- A release of what is not held fails.
  abbrev pub without : A → List A → Option (List A)
  without r [] = none
  without r (held ∷ others) =
      let rest = without r others in
      elim (same r held) [
        | true ↦ some others
        | false ↦ elim rest [ none ↦ none | some left ↦ some (held ∷ left) ]
      ]

  -- What is held after the events, or none if one releases what is not held.
  abbrev pub held_after : List A → List (Event A) → Option (List A)
  held_after held [] = some held
  held_after held (acquire r ∷ events) = held_after (r ∷ held) events
  held_after held (no_effect ∷ events) = held_after held events
  held_after held (release r ∷ events) = elim (without r held) [
    | none ↦ none
    | some left ↦ held_after left events
  ]
