-- ===== src/Prelude/Paths.antt =====
-- Sequences of allowed steps of a state machine, and the states that such a sequence visits.
use mathlib.Core.Path.{◌≡◌}
use mathlib.Core.Logic.{◌⊎◌, inl, inr}
use mathlib.Core.Bool.{Bool, true, false}
use tiktok_techjam_recsys_ag.Prelude.Tests.{Bool-cases}

pub data Steps {ℓ} {S : Type ℓ} (allowed : S → S → Bool) (s : S) : S → Type ℓ where
  here : Steps allowed s s
  step : {t u : S} → Steps allowed s t → allowed t u ≡ true → Steps allowed s u

module _ {ℓ} {S : Type ℓ} {allowed : S → S → Bool} {s : S} where
  -- The sequence enters a state for which the test holds; its first state is not counted.
  abbrev pub Enters : {t : S} → (S → Bool) → Steps allowed s t → Type 0
  Enters p here = ⊥
  Enters p (step {u = u} path _) = (p u ≡ true) ⊎ Enters p path

module _ {ℓ} {S : Type ℓ} (allowed : S → S → Bool) (inside gate : S → Bool) where
  -- A set of states that is entered at its gates alone is not reached but through a gate.
  pub Enters-gate :
      ((t u : S) → allowed t u ≡ true → inside t ≡ false → inside u ≡ true → gate u ≡ true)
      → {s t : S} → (path : Steps allowed s t) → inside s ≡ false
      → inside t ≡ true
      → Enters gate path
  Enters-gate crossing here out ins = cc
  Enters-gate crossing (step {t = t} {u = u} path h) out ins = elim (Bool-cases (inside t)) [
    | inl before ↦ inr (Enters-gate crossing path out before)
    | inr outside ↦ inl (crossing t u h outside ins)
  ]

module _ {ℓ} {S : Type ℓ} {allowed : S → S → Bool} {s : S} where
  pub Steps-trans : {t u : S} → Steps allowed s t → Steps allowed t u → Steps allowed s u
  Steps-trans p here = p
  Steps-trans p (step q h) = step (Steps-trans p q) h
