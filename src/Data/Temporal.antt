-- ===== src/Data/Temporal.antt =====
-- src/rex/data/temporal.py: the folds of the rolling temporal split, and the batches of rows by date.
pub mod Batches
use tiktok_techjam_recsys_ag.Prelude.{
  ℕ, suc, Bool, true, false, not, ◌&&◌, Option, none, some, List, [], ◌∷◌, String, ◌==◌, leb, any,
  map, filter_by, if◌then◌else◌,
}
use tiktok_techjam_recsys_ag.Prelude.Int.{ℤ, pos, int_eq}
use tiktok_techjam_recsys_ag.Data.Arrays.{Array, positions, Numpy, ◌>>=◌, ◌>>◌, require}

pub record ShadowFold : Type 0 where
  pub name : String
  pub train_min : ℕ
  pub train_max : ℕ
  pub valid_min : ℕ
  pub valid_max : ℕ

-- DEFAULT_SHADOW_FOLDS
abbrev pub default_shadow_folds : List ShadowFold
default_shadow_folds =
    record {
      name = "A";
      train_min = 20220408;
      train_max = 20220414;
      valid_min = 20220415;
      valid_max = 20220416;
    }
    ∷ record {
      name = "B";
      train_min = 20220408;
      train_max = 20220416;
      valid_min = 20220417;
      valid_max = 20220418;
    }
    ∷ record {
      name = "C";
      train_min = 20220408;
      train_max = 20220418;
      valid_min = 20220419;
      valid_max = 20220421;
    }
    ∷ []

abbrev pub in_train : ShadowFold → ℕ → Bool
in_train fold date = leb fold.train_min date && leb date fold.train_max

abbrev pub in_valid : ShadowFold → ℕ → Bool
in_valid fold date = leb fold.valid_min date && leb date fold.valid_max

-- `mask.any()`
abbrev pub any_row : Array ℕ → (ℕ → Bool) → Bool
any_row dates mask = any (λ i. mask (dates.at i)) (positions dates.size)

-- `masks`: the two masks, each of them over the dates of the rows.
unfoldable pub masks : ShadowFold → Array ℕ → Option ((ℕ → Bool) × (ℕ → Bool))
masks fold dates = do
  require (not (any_row dates (λ date. in_train fold date && in_valid fold date)))
  some ((λ i. in_train fold (dates.at i)), (λ i. in_valid fold (dates.at i)))

unfoldable pub validate_shadow_folds : Array ℕ → List ShadowFold → Option (Unit {0})
validate_shadow_folds dates [] = some tt
validate_shadow_folds dates (fold ∷ folds) = do
  _ ← masks fold dates
  require (any_row dates (in_train fold) && any_row dates (in_valid fold))
  validate_shadow_folds dates folds

-- `np.flatnonzero(np.diff(ordered_dates))` takes the differences other than 0.
abbrev pub is_nonzero : ℤ → Bool
is_nonzero d = not (d == pos 0)

-- `len(part)`
abbrev pub is_nonempty {ℓ} : {A : Type ℓ} → List A → Bool
is_nonempty [] = false
is_nonempty (x ∷ xs) = true

module _ {Key : Type 0} (np : Numpy Key) where
  unfoldable pub date_batches : Array ℕ → Array Key → List (List ℕ)
  date_batches dates row_ids =
      let order = np.lexsort row_ids dates in
      let ordered_dates = map dates.at order in
      let boundaries = map suc (np.flatnonzero (map is_nonzero (np.diff ordered_dates))) in
      if is_nonempty order then filter_by is_nonempty (np.split order boundaries) else []
