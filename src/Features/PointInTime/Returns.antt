-- ===== src/Features/PointInTime/Returns.antt =====
-- The loop of the feature builders returns where its steps do.
use tiktok_techjam_recsys_ag.Prelude.{ℕ, ◌≡◌, refl, Option, none, some, List, [], ◌∷◌}
use tiktok_techjam_recsys_ag.Data.Arrays.{All, Columns, write, ◌>>=◌}
use tiktok_techjam_recsys_ag.Features.PointInTime.{emit_rows, learn_rows, visit}

abbrev pub Returns : {A : Type 0} → Option A → Type 0
Returns {A} m = (a : A) × (m ≡ some a)

pub Returns-bind :
    {A B : Type 0} {m : Option A} (f : A → Option B)
    → Returns m
    → ((a : A) → Returns (f a))
    → Returns (m >>= f)
Returns-bind f (a, e) h = rw e (h a)

-- A step that returned, and what followed it.
pub bind_some :
    {A B : Type 0} (m : Option A) (f : A → Option B) {b : B}
    → (m >>= f) ≡ some b
    → (a : A) × (m ≡ some a) × (f a ≡ some b)
bind_some none f h = cc
bind_some (some a) f h = (a, refl, h)

module _ {S Row : Type 0} (time : ℕ → ℕ) (learn : ℕ → S → ℕ → Option S)
    (emit : ℕ → S → ℕ → Option Row) (learns : (t : ℕ) (s : S) (i : ℕ) → Returns (learn t s i))
    (emits : (t : ℕ) (s : S) (i : ℕ) → Returns (emit t s i)) where
  emit_rows-Returns :
      (t : ℕ) (s : S) (b : List ℕ) (columns : Columns Row) → Returns (emit_rows emit t s b columns)
  unfolding emit_rows
  emit_rows-Returns t s [] columns = (columns, refl)
  emit_rows-Returns t s (i ∷ b) columns =
      Returns-bind _ (emits t s i) (λ row. emit_rows-Returns t s b (write i row columns))

  learn_rows-Returns : (t : ℕ) (s : S) (b : List ℕ) → Returns (learn_rows time learn t s b)
  unfolding learn_rows
  learn_rows-Returns t s [] = (s, refl)
  learn_rows-Returns t s (i ∷ b) = Returns-bind _ (learns t s i) (λ s'. learn_rows-Returns t s' b)

  pub visit-Returns :
      (bs : List (List ℕ)) (s : S) (columns : Columns Row)
      → Returns (visit time learn emit bs s columns)
  unfolding visit
  visit-Returns [] s columns = (columns, refl)
  visit-Returns ([] ∷ bs) s columns = visit-Returns bs s columns
  visit-Returns ((i ∷ b) ∷ bs) s columns =
      Returns-bind _ (emit_rows-Returns (time i) s (i ∷ b) columns) (λ columns'.
        Returns-bind _ (learn_rows-Returns (time i) s (i ∷ b)) (λ s'. visit-Returns bs s' columns'))

-- Rows of a frozen state are written where each of them can be.
module _ {S Row : Type 0} (emit : ℕ → S → ℕ → Option Row) (t : ℕ) (s : S) where
  pub emit_rows-Returns-All :
      (b : List ℕ) (columns : Columns Row)
      → All (λ i. Returns (emit t s i)) b
      → Returns (emit_rows emit t s b columns)
  unfolding emit_rows
  emit_rows-Returns-All [] columns h = (columns, refl)
  emit_rows-Returns-All (i ∷ b) columns h =
      Returns-bind _ h.0 (λ row. emit_rows-Returns-All b (write i row columns) h.1)
