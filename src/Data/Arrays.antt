-- ===== src/Data/Arrays.antt =====
-- The arrays of numpy that src/rex/data and src/rex/features read and write, and the library's functions
-- that they call. An array is its length and its members by position; no position from its length on is
-- read where the order of the rows is an order of the positions below it.
use mathlib.Core.List.{Permᴰ}
use tiktok_techjam_recsys_ag.Prelude.{
  ℕ, zero, suc, ◌-◌, ◌≡◌, ◌≤◌, Bool, true, false, not, Option, none, some, List, [], ◌∷◌, map, ◌==◌,
  nat_eq, if◌then◌else◌,
}
use tiktok_techjam_recsys_ag.Prelude.Int.{ℤ, sub_ℕ}

pub record Array (A : Type 0) : Type 0 where
  pub size : ℕ
  pub at : ℕ → A

-- The positions of an array, in their order.
abbrev pub positions_from : ℕ → ℕ → List ℕ
positions_from k zero = []
positions_from k (suc n) = k ∷ positions_from (suc k) n

abbrev pub positions : ℕ → List ℕ
positions n = positions_from 0 n

-- `xs[:n]` and `xs[n:]`
module _ {ℓ} {A : Type ℓ} where
  abbrev pub take : ℕ → List A → List A
  take zero xs = []
  take (suc n) [] = []
  take (suc n) (x ∷ xs) = x ∷ take n xs

  abbrev pub drop : ℕ → List A → List A
  drop zero xs = xs
  drop (suc n) [] = []
  drop (suc n) (x ∷ xs) = drop n xs

-- `xs[1:] != xs[:-1]`
abbrev pub changes : List ℕ → List Bool
changes [] = []
changes (x ∷ []) = []
changes (x ∷ y ∷ xs) = not (y == x) ∷ changes (y ∷ xs)

-- The columns of an array of results, of which some positions have been written.
abbrev pub Columns : Type 0 → Type 0
Columns Row = ℕ → Option Row

-- `column[i] = row`
abbrev pub write : {Row : Type 0} → ℕ → Row → Columns Row → Columns Row
write i row columns j = if i == j then some row else columns j

-- The statements after one that may raise a ValueError, which is `none`.
infixl 5 ◌>>=◌ ◌>>◌
abbrev pub ◌>>=◌ : {A B : Type 0} → Option A → (A → Option B) → Option B
none >>= rest = none
some value >>= rest = rest value

abbrev pub ◌>>◌ : {A : Type 0} → Option (Unit {0}) → Option A → Option A
check >> rest = check >>= λ _. rest

-- `d.get(key, default)`
abbrev pub value_or {ℓ} : {V : Type ℓ} → V → Option V → V
value_or default none = default
value_or default (some value) = value

-- `if not condition: raise ValueError`
abbrev pub require : Bool → Option (Unit {0})
require true = some tt
require false = none

-- `np.lexsort((keys, times))`, `np.argsort(times, kind="stable")`, `np.diff`, `np.flatnonzero` and
-- `np.split`.
pub record Numpy (Key : Type 0) : Type 0 where
  pub lexsort : Array Key → Array ℕ → List ℕ
  pub argsort : Array ℕ → List ℕ
  pub diff : List ℕ → List ℤ
  pub flatnonzero : List Bool → List ℕ
  pub split : List ℕ → List ℕ → List (List ℕ)

-- What numpy documents of the last three: differences of neighbours, the positions of the true members,
-- and the pieces between the cuts.
pub record IsNumpy {Key : Type 0} (np : Numpy Key) : Type 0 where
  pub diff_nil : np.diff [] ≡ []
  pub diff_one : (x : ℕ) → np.diff (x ∷ []) ≡ []
  pub diff_more : (x y : ℕ) (xs : List ℕ) → np.diff (x ∷ y ∷ xs) ≡ sub_ℕ y x ∷ np.diff (y ∷ xs)
  pub nonzero_nil : np.flatnonzero [] ≡ []
  pub nonzero_true : (bs : List Bool) → np.flatnonzero (true ∷ bs) ≡ 0 ∷ map suc (np.flatnonzero bs)
  pub nonzero_false : (bs : List Bool) → np.flatnonzero (false ∷ bs) ≡ map suc (np.flatnonzero bs)
  pub split_nil : (xs : List ℕ) → np.split xs [] ≡ xs ∷ []
  pub split_cons :
      (xs : List ℕ) (c : ℕ) (cs : List ℕ)
      → np.split xs (c ∷ cs) ≡ take c xs ∷ np.split (drop c xs) (map (λ k. k - c) cs)

abbrev pub All {ℓ κ} : {A : Type ℓ} → (A → Type κ) → List A → Type κ
All P [] = Unit
All P (x ∷ xs) = P x × All P xs

-- Every row is before the rows that follow, or of the same time.
abbrev pub IsChronological : (ℕ → ℕ) → List ℕ → Type 0
IsChronological time [] = Unit
IsChronological time (i ∷ order) = All (λ j. time i ≤ time j) order × IsChronological time order

-- What numpy documents of a sort by time: each position once, in the order of the times.
pub record IsOrder (times : Array ℕ) (order : List ℕ) : Type 0 where
  pub each : Permᴰ order (positions times.size)
  pub chronological : IsChronological times.at order
