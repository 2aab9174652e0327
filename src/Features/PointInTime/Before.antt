-- ===== src/Features/PointInTime/Before.antt =====
-- The rows of strictly earlier times in an order of the rows.
use mathlib.Core.List.{Memᴰ}
use mathlib.Core.List.Memᴰ.{head, tail}
use tiktok_techjam_recsys_ag.Prelude.{
  ℕ, ◌≡◌, ◌≤◌, ◌<◌, refl, ◌⊎◌, inl, inr, List, [], ◌∷◌, ◌++◌, nat_eq, ltb, filter_by, Bool-cases,
  arith,
}
use tiktok_techjam_recsys_ag.Data.Arrays.{All}

-- The rows of strictly earlier times, in their order.
unfoldable pub earlier : (ℕ → ℕ) → ℕ → List ℕ → List ℕ
earlier time t order = filter_by (λ j. ltb (time j) t) order

pub All-mem :
    {P : ℕ → Type 0} (xs : List ℕ) {i : ℕ} → All P xs → Memᴰ i xs → (j : ℕ) × (i ≡ j) × P j
All-mem [] h m = elim m [ ]
All-mem (x ∷ xs) h (head e) = (x, e, h.0)
All-mem (x ∷ xs) h (tail m) = All-mem xs h.1 m

pub split_mem : (i : ℕ) (xs ys : List ℕ) → Memᴰ i (xs ++ ys) → Memᴰ i xs ⊎ Memᴰ i ys
split_mem i [] ys m = inr m
split_mem i (x ∷ xs) ys (head e) = inl (head e)
split_mem i (x ∷ xs) ys (tail m) = elim (split_mem i xs ys m) [
  | inl l ↦ inl (tail l)
  | inr r ↦ inr r
]

module _ (time : ℕ → ℕ) where
  -- Rows that are all before a time, and rows of which none is.
  pub earlier-All :
      (t : ℕ) (xs ys : List ℕ)
      → All (λ j. time j < t) xs
      → earlier time t (xs ++ ys) ≡ xs ++ earlier time t ys
  unfolding earlier filter_by
  earlier-All t [] ys h = refl
  earlier-All t (x ∷ xs) ys h = ground (arith, earlier-All t xs ys h.1)

  pub earlier-before : (t : ℕ) (xs : List ℕ) → All (λ j. time j < t) (earlier time t xs)
  unfolding earlier filter_by
  earlier-before t [] = tt
  earlier-before t (x ∷ xs) = elim (Bool-cases (ltb (time x) t)) [
    | inl yes' ↦ rw yes' (ground arith, earlier-before t xs)
    | inr no' ↦ rw no' (earlier-before t xs)
  ]

  pub earlier-none : (t : ℕ) (xs : List ℕ) → All (λ j. t ≤ time j) xs → earlier time t xs ≡ []
  unfolding earlier filter_by
  earlier-none t [] h = refl
  earlier-none t (x ∷ xs) h = ground (arith, earlier-none t xs h.1)

module _ (P : ℕ → Type 0) where
  pub All-append : (xs ys : List ℕ) → All P xs → All P ys → All P (xs ++ ys)
  All-append [] ys h k = k
  All-append (x ∷ xs) ys h k = (h.0, All-append xs ys h.1 k)

  pub All-left : (xs ys : List ℕ) → All P (xs ++ ys) → All P xs
  All-left [] ys h = tt
  All-left (x ∷ xs) ys h = (h.0, All-left xs ys h.1)

  pub All-right : (xs ys : List ℕ) → All P (xs ++ ys) → All P ys
  All-right [] ys h = h
  All-right (x ∷ xs) ys h = All-right xs ys h.1

module _ {P Q : ℕ → Type 0} where
  pub All-map : (xs : List ℕ) → ((j : ℕ) → P j → Q j) → All P xs → All Q xs
  All-map [] f h = tt
  All-map (x ∷ xs) f h = (f x h.0, All-map xs f h.1)
