-- ===== src/Data/Temporal/Batches.antt =====
-- The batches of rows by time, as src/rex/data/temporal.py and src/rex/features/temporal_order.py cut them.
use tiktok_techjam_recsys_ag.Prelude.{
  ℕ, suc, ◌-◌, ◌≡◌, ◌≤◌, ◌<◌, refl, sym, ap, ◌∙◌, inl, inr, true, false, not, List, [], ◌∷◌, ◌++◌,
  map, ◌==◌, nat_eq, Bool-cases, eq_of_==, if◌then◌else◌, filter_by, arith,
}
use tiktok_techjam_recsys_ag.Prelude.Int.{sub_ℕ, int_eq}
use tiktok_techjam_recsys_ag.Data.Arrays.{
  Array, All, changes, IsChronological, Numpy, IsNumpy, IsOrder,
}
use tiktok_techjam_recsys_ag.Data.Temporal.{is_nonzero, is_nonempty, date_batches}

abbrev pub concat {ℓ} : {A : Type ℓ} → List (List A) → List A
concat [] = []
concat (b ∷ bs) = b ++ concat bs

-- Each batch has one time, and the rows of the batches after it have later ones.
abbrev pub IsBatches : (ℕ → ℕ) → List (List ℕ) → Type 0
IsBatches time [] = Unit
IsBatches time (batch ∷ batches) =
    ((t : ℕ) × All (λ i. time i ≡ t) batch × All (λ i. t < time i) (concat batches))
    × IsBatches time batches

-- The batches are cut from the rows, in their order.
abbrev pub Cuts : (ℕ → ℕ) → List ℕ → List (List ℕ) → Type 0
Cuts time order batches = (concat batches ≡ order) × IsBatches time batches

minus_suc : (cs : List ℕ) (c : ℕ) → map (λ k. k - suc c) (map suc cs) ≡ map (λ k. k - c) cs
minus_suc [] c = refl
minus_suc (k ∷ cs) c = ground (arith, minus_suc cs c)

map_minus_one : (cs : List ℕ) → map (λ k. k - 1) (map suc cs) ≡ cs
map_minus_one [] = refl
map_minus_one (k ∷ cs) = ground (arith, map_minus_one cs)

-- The first batch takes one more row.
abbrev with_first {ℓ} : {A : Type ℓ} → A → List (List A) → List (List A)
with_first x [] = []
with_first x (b ∷ bs) = (x ∷ b) ∷ bs

module _ {Key : Type 0} (np : Numpy Key) (laws : IsNumpy np) (time : ℕ → ℕ) where
  abbrev boundaries : List ℕ → List ℕ
  boundaries order = map suc (np.flatnonzero (changes (map time order)))

  split_first :
      (x : ℕ) (xs cs : List ℕ) → np.split (x ∷ xs) (map suc cs) ≡ with_first x (np.split xs cs)
  split_first x xs [] = rw (laws.split_nil (x ∷ xs), laws.split_nil xs)
  split_first x xs (c ∷ cs) =
      rw (laws.split_cons (x ∷ xs) (suc c) (map suc cs), laws.split_cons xs c cs, minus_suc cs c)

  split_one :
      (x : ℕ) (xs cs : List ℕ) → np.split (x ∷ xs) (1 ∷ map suc cs) ≡ (x ∷ []) ∷ np.split xs cs
  split_one x xs cs = rw (laws.split_cons (x ∷ xs) 1 (map suc cs), map_minus_one cs)

  abbrev pub StartsWith : ℕ → List (List ℕ) → Type 0
  StartsWith x [] = ⊥
  StartsWith x ([] ∷ bs) = ⊥
  StartsWith x ((y ∷ b) ∷ bs) = x ≡ y

  -- The batches are cut from these rows, and start with the first of them.
  abbrev pub CutsFrom : ℕ → List ℕ → List (List ℕ) → Type 0
  CutsFrom x xs bs = StartsWith x bs × Cuts time (x ∷ xs) bs

  -- A row of the same time as the first batch joins_batch it.
  joins_batch :
      (x y : ℕ) (xs : List ℕ) (bs : List (List ℕ))
      → time x ≡ time y
      → CutsFrom y xs bs
      → CutsFrom x (y ∷ xs) (with_first x bs)
  joins_batch x y xs [] e c = elim c.0 [ ]
  joins_batch x y xs ([] ∷ bs) e c = elim c.0 [ ]
  joins_batch x y xs ((z ∷ b) ∷ bs) e (s, (c, ((t, day, later), h))) =
      (refl, (ap (λ r. x ∷ r) c, ((t, (e ∙ ap time s ∙ day.0, day), later), h)))

  -- A row of an earlier time is a batch.
  starts_batch :
      (x y : ℕ) (xs : List ℕ) (bs : List (List ℕ))
      → time x < time y
      → All (λ j. time y ≤ time j) xs
      → CutsFrom y xs bs
      → CutsFrom x (y ∷ xs) ((x ∷ []) ∷ bs)
  starts_batch x y xs bs e later (s, (c, h)) =
      (refl, (ap (λ r. x ∷ r) c, ((time x, (refl, tt), rw c (e, raised xs later)), h)))
    where
      raised : (zs : List ℕ) → All (λ j. time y ≤ time j) zs → All (λ j. time x < time j) zs
      raised [] l = tt
      raised (z ∷ zs) l = (omega (arith, e, l.0), raised zs l.1)

  same_boundary :
      (x y : ℕ) (xs : List ℕ)
      → (time y == time x) ≡ true
      → boundaries (x ∷ y ∷ xs) ≡ map suc (boundaries (y ∷ xs))
  same_boundary x y xs h = rw h (ap (map suc) (laws.nonzero_false (changes (map time (y ∷ xs)))))

  new_boundary :
      (x y : ℕ) (xs : List ℕ)
      → (time y == time x) ≡ false
      → boundaries (x ∷ y ∷ xs) ≡ 1 ∷ map suc (boundaries (y ∷ xs))
  new_boundary x y xs h = rw h (ap (map suc) (laws.nonzero_true (changes (map time (y ∷ xs)))))

  -- The split at the changes of time cuts the rows into batches.
  pub split_cuts :
      (x : ℕ) (xs : List ℕ)
      → IsChronological time (x ∷ xs)
      → CutsFrom x xs (np.split (x ∷ xs) (boundaries (x ∷ xs)))
  split_cuts x [] h =
      rw (laws.nonzero_nil, laws.split_nil (x ∷ [])) (refl, (refl, ((time x, (refl, tt), tt), tt)))
  split_cuts x (y ∷ xs) h = elim (Bool-cases (time y == time x)) [
    | inl same ↦
        rw (same_boundary x y xs same, split_first x (y ∷ xs) (boundaries (y ∷ xs)))
          (joins_batch x y xs (np.split (y ∷ xs) (boundaries (y ∷ xs))) (sym (eq_of_== same))
            (split_cuts y xs h.1))
    | inr new ↦
        rw (new_boundary x y xs new, split_one x (y ∷ xs) (boundaries (y ∷ xs)))
          (starts_batch x y xs (np.split (y ∷ xs) (boundaries (y ∷ xs)))
            (below (time x) (time y) h.0.0 new) h.1.0 (split_cuts y xs h.1))
  ]
    where
      below : (a b : ℕ) → a ≤ b → (b == a) ≡ false → a < b
      below a b le ne = ground arith

-- Leaving the empty batches out changes neither the rows nor their batches.
concat-nonempty : (bs : List (List ℕ)) → concat (filter_by is_nonempty bs) ≡ concat bs
unfolding filter_by
concat-nonempty [] = refl
concat-nonempty ([] ∷ bs) = concat-nonempty bs
concat-nonempty ((x ∷ b) ∷ bs) = rw (concat-nonempty bs)

IsBatches-nonempty :
    (time : ℕ → ℕ) (bs : List (List ℕ))
    → IsBatches time bs
    → IsBatches time (filter_by is_nonempty bs)
unfolding filter_by
IsBatches-nonempty time [] h = tt
IsBatches-nonempty time ([] ∷ bs) h = IsBatches-nonempty time bs h.1
IsBatches-nonempty time ((x ∷ b) ∷ bs) h =
    (rw (concat-nonempty bs) h.0, IsBatches-nonempty time bs h.1)

module _ {Key : Type 0} (np : Numpy Key) (laws : IsNumpy np) where
  changes-diff : (xs : List ℕ) → map is_nonzero (np.diff xs) ≡ changes xs
  changes-diff [] = rw laws.diff_nil
  changes-diff (x ∷ []) = rw (laws.diff_one x)
  changes-diff (x ∷ y ∷ xs) =
      rw (laws.diff_more x y xs, changes-diff (y ∷ xs), nonzero_difference x y)
    where
      nonzero_difference : (x y : ℕ) → is_nonzero (sub_ℕ y x) ≡ not (y == x)
      nonzero_difference x y = ground arith

  -- The batches by date are cut from the rows, in the order of their dates.
  pub date_batches-Cuts :
      (dates : Array ℕ) (row_ids : Array Key)
      → IsOrder dates (np.lexsort row_ids dates)
      → Cuts dates.at (np.lexsort row_ids dates) (date_batches np dates row_ids)
  unfolding date_batches
  date_batches-Cuts dates row_ids sorted =
      rw (changes-diff (map dates.at (np.lexsort row_ids dates)))
        (cases (np.lexsort row_ids dates) sorted.chronological)
    where
      cases :
          (order : List ℕ)
          → IsChronological dates.at order
          → Cuts dates.at order (
              if is_nonempty order
              then filter_by is_nonempty (np.split order (boundaries np laws dates.at order))
              else [])
      cases [] h = (refl, tt)
      cases (x ∷ xs) h =
          let c = split_cuts np laws dates.at x xs h in
          (concat-nonempty _ ∙ c.1.0, IsBatches-nonempty dates.at _ c.1.1)
