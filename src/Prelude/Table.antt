-- ===== src/Prelude/Table.antt =====
-- A table of the database, keyed by its primary key or by a unique column. `put` updates the row
-- of a key in place, or appends a new row, so rows keep the order in which they were inserted.
use mathlib.Core.Path.{◌≡◌, refl, subst}
use mathlib.Core.Logic.{inl, inr}
use mathlib.Core.Option.{Option, none, some}
use mathlib.Core.List.{List, [], ◌∷◌}
use native.Mathlib.Omega.{arith}
use tiktok_techjam_recsys_ag.Prelude.Tests.{Eq, ◌==◌, if◌then◌else◌, Bool-cases, eq_of_==}

abbrev pub Table : Type 0 → Type 0 → Type 0
Table K V = List (K × V)

module _ {K V : Type 0} ⦃e : Eq K⦄ where
  -- SELECT * FROM t WHERE key=?
  unfoldable pub get : K → Table K V → Option V
  get k [] = none
  get k ((j, v) ∷ t) = if j == k then some v else get k t

  -- INSERT, and UPDATE … WHERE key=?
  unfoldable pub put : K → V → Table K V → Table K V
  put k v [] = (k, v) ∷ []
  put k v ((j, w) ∷ t) = if j == k then (k, v) ∷ t else (j, w) ∷ put k v t

  pub get-put :
      (k j : K) (v : V) (t : Table K V) → get j (put k v t) ≡ (if k == j then some v else get j t)
  unfolding get put
  get-put k j v [] = refl
  get-put k j v ((i, w) ∷ t) = ground (arith, get-put k j v t)

  pub get-put_self : (k : K) (v : V) (t : Table K V) → get k (put k v t) ≡ some v
  get-put_self k v t = ground (arith, get-put k k v t)

module _ {K V : Type 0} where
  abbrev pub rows : Table K V → List V
  rows [] = []
  rows ((_, v) ∷ t) = v ∷ rows t

  abbrev pub keys : Table K V → List K
  keys [] = []
  keys ((k, _) ∷ t) = k ∷ keys t

-- Two tables whose rows are related key by key, a missing row as `none`.
module _ {K V : Type 0} ⦃e : Eq K⦄ where
  pub record Related (R : Option V → Option V → Type 0) (t t' : Table K V) : Type 0 where
    pub at : (k : K) → R (get k t) (get k t')

  pub Related-refl :
      (R : Option V → Option V → Type 0) (t : Table K V) → ((o : Option V) → R o o) → Related R t t
  Related-refl R t r = record { at = λ k. r (get k t) }

  -- Writing one row relates the tables, if it relates that row.
  pub Related-put :
      (R : Option V → Option V → Type 0) (k : K) (v : V) (t : Table K V)
      → ((o : Option V) → R o o)
      → R (get k t) (some v)
      → Related R t (put k v t)
  Related-put R k v t r h = record {
    at = λ j. rw (get-put k j v t) (elim (Bool-cases (k == j)) [
      | inl same ↦ rw same (subst (λ i. R (get i t) (some v)) (eq_of_== same) h)
      | inr other ↦ rw other (r (get j t))
    ]);
  }

  pub Related-trans :
      (R : Option V → Option V → Type 0) (t t' t'' : Table K V)
      → ((o o' o'' : Option V) → R o o' → R o' o'' → R o o'')
      → Related R t t'
      → Related R t' t''
      → Related R t t''
  Related-trans R t t' t'' trans h h' = record {
    at = λ k. trans (get k t) (get k t') (get k t'') (h.at k) (h'.at k);
  }
