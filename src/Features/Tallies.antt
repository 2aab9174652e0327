-- ===== src/Features/Tallies.antt =====
-- A dictionary that the feature builders of src/rex/features update for the key of each row.
use mathlib.Core.Path.{ap₂}
use mathlib.Core.List.{Permᴰ}
use tiktok_techjam_recsys_ag.Data.Arrays.{All, IsChronological}
use tiktok_techjam_recsys_ag.Data.Orders.{perm_filter}
use tiktok_techjam_recsys_ag.Prelude.{
  ◌≤◌, ltb, ℕ, ◌+◌, ◌≡◌, refl, sym, ap, ◌∙◌, inl, inr, Bool, Option, none, some, List, [], ◌∷◌, Eq,
  ◌==◌, if◌then◌else◌, eq_of_==, Bool-cases, length, filter_by, arith,
}
use tiktok_techjam_recsys_ag.Prelude.Table.{Table, get, put, get-put}
use tiktok_techjam_recsys_ag.Data.Arrays.{value_or}
use tiktok_techjam_recsys_ag.Features.PointInTime.{learn_rows}
use tiktok_techjam_recsys_ag.Features.PointInTime.History.{learned}

module _ {K : Type 0} ⦃e : Eq K⦄ (key : ℕ → K) where
  -- The rows of a key.
  unfoldable pub own : K → List ℕ → List ℕ
  own k rows = filter_by (λ j. key j == k) rows

module _ {V : Type 0} (step : V → ℕ → V) where
  unfoldable pub fold_rows : V → List ℕ → V
  fold_rows v [] = v
  fold_rows v (j ∷ js) = fold_rows (step v j) js

module _ {K V : Type 0} ⦃e : Eq K⦄ (key : ℕ → K) (default : V) (step : V → ℕ → V) where
  -- One row updates the value of its key.
  abbrev pub tally_row : Table K V → ℕ → Table K V
  tally_row t j = put (key j) (step (value_or default (get (key j) t)) j) t

  pub value-tally :
      (k : K) (t : Table K V) (js : List ℕ)
      → value_or default (get k (fold_rows tally_row t js))
        ≡ fold_rows step (value_or default (get k t)) (own key k js)
  unfolding fold_rows own filter_by
  value-tally k t [] = refl
  value-tally k t (j ∷ js) = value-tally k (tally_row t j) js ∙ elim (Bool-cases (key j == k)) [
    | inl same ↦
        rw (get-put (key j) k (step (value_or default (get (key j) t)) j) t, same)
          (ap (λ q. fold_rows step (step (value_or default (get q t)) j) (own key k js))
            (eq_of_== same))
    | inr other ↦ rw (get-put (key j) k (step (value_or default (get (key j) t)) j) t, other) refl
  ]

-- Counting, and learning that never fails.
pub count-length : (n : ℕ) (js : List ℕ) → fold_rows (λ c j. c + 1) n js ≡ n + length js
unfolding fold_rows
count-length n [] = omega arith
count-length n (j ∷ js) = omega (arith, count-length (n + 1) js)

pub learned-fold :
    {S : Type 0} (time : ℕ → ℕ) (update : S → ℕ → S) (js : List ℕ) (s : S)
    → learned time (λ c s' i. some (update s' i)) js s ≡ some (fold_rows update s js)
unfolding learned fold_rows
learned-fold time update [] s = refl
learned-fold time update (j ∷ js) s = learned-fold time update js (update s j)

pub learn_rows-fold :
    {S : Type 0} (time : ℕ → ℕ) (update : S → ℕ → S) (current : ℕ) (s : S) (js : List ℕ)
    → learn_rows time (λ c s' i. some (update s' i)) current s js ≡ some (fold_rows update s js)
unfolding learn_rows fold_rows
learn_rows-fold time update current s [] = refl
learn_rows-fold time update current s (j ∷ js) = learn_rows-fold time update current (update s j) js

-- A step that commutes gives the same whatever the order of the rows.
pub fold-perm :
    {V : Type 0} (step : V → ℕ → V)
    → ((v : V) (a b : ℕ) → step (step v a) b ≡ step (step v b) a)
    → {xs ys : List ℕ} → (v : V) → Permᴰ xs ys
    → fold_rows step v xs ≡ fold_rows step v ys
unfolding fold_rows
fold-perm step commutes v Permᴰ.nil = refl
fold-perm step commutes v (Permᴰ.cons {l₂ = l₂} e p) =
    fold-perm step commutes _ p ∙ ap (λ a. fold_rows step (step v a) l₂) e
fold-perm step commutes v (Permᴰ.swap {a = a} {b = b} {l = l} e f) =
    ap (λ u. fold_rows step u l) (commutes v a b ∙ ap₂ (λ x y. step (step v x) y) f e)
fold-perm step commutes v (Permᴰ.trans p q) =
    fold-perm step commutes v p ∙ fold-perm step commutes v q

-- The later of two times, of which the first may be missing.
abbrev latest : (ℕ → ℕ) → Option ℕ → ℕ → Option ℕ
latest time none j = some (time j)
latest time (some t) j = if ltb t (time j) then some (time j) else some t

latest_commutes :
    (time : ℕ → ℕ) (v : Option ℕ) (a b : ℕ)
    → latest time (latest time v a) b ≡ latest time (latest time v b) a
latest_commutes time none a b = ground arith
latest_commutes time (some t) a b = ground arith

-- Storing the time of each row of a key, in the order of the times, keeps the latest one.
abbrev NotAfter : (ℕ → ℕ) → Option ℕ → List ℕ → Type 0
NotAfter time none js = Unit
NotAfter time (some t) js = All (λ j. t ≤ time j) js

overwritten :
    (time : ℕ → ℕ) (v : Option ℕ) (js : List ℕ)
    → IsChronological time js
    → NotAfter time v js
    → fold_rows (λ _ j. some (time j)) v js ≡ fold_rows (latest time) v js
unfolding fold_rows
overwritten time v [] c n = refl
overwritten time none (j ∷ js) c n = overwritten time (some (time j)) js c.1 c.0
overwritten time (some t) (j ∷ js) c n =
    overwritten time (some (time j)) js c.1 c.0
    ∙ ap (λ u. fold_rows (latest time) u js) (sym (kept t (time j) n.0))
  where
    kept : (t u : ℕ) → t ≤ u → (if ltb t u then some u else some t) ≡ some u
    kept t u le = ground arith

pub IsChronological-filter :
    (time : ℕ → ℕ) (p : ℕ → Bool) (js : List ℕ)
    → IsChronological time js
    → IsChronological time (filter_by p js)
unfolding filter_by
IsChronological-filter time p [] c = tt
IsChronological-filter time p (j ∷ js) c = elim (Bool-cases (p j)) [
  | inl in' ↦ rw in' (All-filter js c.0, IsChronological-filter time p js c.1)
  | inr out ↦ rw out (IsChronological-filter time p js c.1)
]
  where
    All-filter :
        (xs : List ℕ) → All (λ i. time j ≤ time i) xs → All (λ i. time j ≤ time i) (filter_by p xs)
    All-filter [] a = tt
    All-filter (x ∷ xs) a = elim (Bool-cases (p x)) [
      | inl in' ↦ rw in' (a.0, All-filter xs a.1)
      | inr out ↦ rw out (All-filter xs a.1)
    ]

module _ {K : Type 0} ⦃e : Eq K⦄ (key : ℕ → K) (time : ℕ → ℕ) where
  -- One row stores its time for its key.
  abbrev pub stamp_row : Table K ℕ → ℕ → Table K ℕ
  stamp_row t j = put (key j) (time j) t

  get-stamp :
      (k : K) (t : Table K ℕ) (js : List ℕ)
      → get k (fold_rows stamp_row t js) ≡ fold_rows (λ _ j. some (time j)) (get k t) (own key k js)
  unfolding fold_rows own filter_by
  get-stamp k t [] = refl
  get-stamp k t (j ∷ js) = get-stamp k (stamp_row t j) js ∙ elim (Bool-cases (key j == k)) [
    | inl same ↦ rw (get-put (key j) k (time j) t, same) refl
    | inr other ↦ rw (get-put (key j) k (time j) t, other) refl
  ]

  -- Two orders of the same rows, both by their times, leave the same latest times.
  pub get-stamp_perm :
      (k : K) {xs ys : List ℕ}
      → IsChronological time xs
      → IsChronological time ys
      → Permᴰ xs ys
      → get k (fold_rows stamp_row [] xs) ≡ get k (fold_rows stamp_row [] ys)
  unfolding own get
  get-stamp_perm k {xs} {ys} c d p =
      get-stamp k [] xs
      ∙ overwritten time none (own key k xs) (IsChronological-filter time _ xs c) tt
      ∙ fold-perm (latest time) (latest_commutes time) none (perm_filter _ p)
      ∙ sym (overwritten time none (own key k ys) (IsChronological-filter time _ ys d) tt)
      ∙ sym (get-stamp k [] ys)

-- Two orders of the same rows leave the same tallies, where the step commutes.
module _ {K V : Type 0} ⦃e : Eq K⦄ (key : ℕ → K) (default : V) (step : V → ℕ → V) where
  pub value-tally_perm :
      ((v : V) (a b : ℕ) → step (step v a) b ≡ step (step v b) a)
      → (k : K) {xs ys : List ℕ} → Permᴰ xs ys
      → value_or default (get k (fold_rows (tally_row key default step) [] xs))
        ≡ value_or default (get k (fold_rows (tally_row key default step) [] ys))
  unfolding own
  value-tally_perm commutes k {xs} {ys} p =
      value-tally key default step k [] xs
      ∙ fold-perm step commutes _ (perm_filter _ p)
      ∙ sym (value-tally key default step k [] ys)
