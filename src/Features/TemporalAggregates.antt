-- ===== src/Features/TemporalAggregates.antt =====
-- src/rex/features/temporal_aggregates.py: expanding target rates, and rates that are frozen after a fit.
pub mod Expanded
use tiktok_techjam_recsys_ag.Prelude.{
  ℕ, suc, ◌+◌, Bool, ◌&&◌, Option, none, some, List, [], ◌∷◌, String, string_eq, nat_eq, ◌==◌,
  if◌then◌else◌,
}
use tiktok_techjam_recsys_ag.Prelude.Int.{pos}
use tiktok_techjam_recsys_ag.Prelude.Table.{Table, get, put}
use tiktok_techjam_recsys_ag.Data.Arrays.{Array, Columns, Numpy, positions, ◌>>=◌, ◌>>◌, require}
use tiktok_techjam_recsys_ag.Data.Temporal.{date_batches}
use tiktok_techjam_recsys_ag.Features.Numbers.{Floats, divide, zero, members}
use tiktok_techjam_recsys_ag.Data.Arrays.{value_or}
use tiktok_techjam_recsys_ag.Features.PointInTime.{emit_rows, visit}

-- The history of `expanding_target_rate`.
pub record Rates (F : Type 0) : Type 0 where
  pub positives : Table String F
  pub impressions : Table String ℕ
  pub global_positive : F
  pub global_count : ℕ

pub record RateRow (F : Type 0) : Type 0 where
  pub target_rate : F
  pub prior_impressions : ℕ

-- What `fit_entity_statistics` returns.
pub record Statistics (F : Type 0) : Type 0 where
  pub global_mean : F
  pub prior_strength : F
  pub positive : Table String F
  pub count : Table String ℕ

module _ {F : Type 0} (floats : Floats F) where
  -- `0.5`
  abbrev pub one_half : F
  one_half = floats.literal (record { mantissa = pos 5; places = 1 })

  abbrev pub no_rates : Rates F
  no_rates = record {
    positives = [];
    impressions = [];
    global_positive = zero floats;
    global_count = 0;
  }

  -- The rate of a key that was seen so often, with so many positive labels.
  abbrev pub rate_row : F → F → F → ℕ → Option (RateRow F)
  rate_row prior_strength prior_mean positive count = do
    rate ←
        divide floats (floats.plus positive (floats.times prior_strength prior_mean))
          (floats.plus (floats.whole count) prior_strength)
    some (record { target_rate = floats.single rate; prior_impressions = count })

  abbrev pub prior_mean : F → ℕ → F
  prior_mean positive count =
      if count == 0 then one_half else floats.over positive (floats.whole count)

  module _ (keys : Array String) (labels : Array F) where
    abbrev pub emit_rate : F → ℕ → Rates F → ℕ → Option (RateRow F)
    emit_rate prior_strength current s i =
        rate_row prior_strength (prior_mean s.global_positive s.global_count)
          (value_or (zero floats) (get (keys.at i) s.positives))
          (value_or 0 (get (keys.at i) s.impressions))

    abbrev pub add_label : Rates F → ℕ → Rates F
    add_label s i = record {
      positives =
          put (keys.at i)
            (floats.plus (value_or (zero floats) (get (keys.at i) s.positives)) (labels.at i))
            s.positives;
      impressions = put (keys.at i) (value_or 0 (get (keys.at i) s.impressions) + 1) s.impressions;
      global_positive = floats.plus s.global_positive (labels.at i);
      global_count = s.global_count + 1;
    }

  module _ {Key : Type 0} (np : Numpy Key) where
    unfoldable pub expanding_target_rate :
        Array String → Array ℕ → Array Key → Array F → F → Option (Columns (RateRow F))
    expanding_target_rate keys dates row_ids labels prior_strength = do
      require (keys.size == dates.size && dates.size == row_ids.size && row_ids.size == labels.size)
      visit dates.at (λ current s i. some (add_label keys labels s i))
          (emit_rate keys labels prior_strength) (date_batches np dates row_ids) no_rates
          (λ i. none)

  -- `for key, label in zip(keys, labels)`
  unfoldable pub fit_rows : Array String → Array F → List ℕ → Statistics F → Statistics F
  fit_rows keys labels [] s = s
  fit_rows keys labels (i ∷ is) s = fit_rows keys labels is (record s {
    positive =
        put (keys.at i)
          (floats.plus (value_or (zero floats) (get (keys.at i) s.positive)) (labels.at i))
          s.positive;
    count = put (keys.at i) (value_or 0 (get (keys.at i) s.count) + 1) s.count;
  })

  unfoldable pub fit_entity_statistics : Array String → Array F → F → Option (Statistics F)
  fit_entity_statistics keys labels prior_strength = do
    require (keys.size == labels.size)
    some (
        fit_rows keys labels (positions keys.size) (record {
          global_mean = if labels.size == 0 then zero floats else floats.mean (members labels);
          prior_strength = prior_strength;
          positive = [];
          count = [];
        }))

  abbrev pub apply_row : Statistics F → String → Option (RateRow F)
  apply_row s key =
      rate_row s.prior_strength s.global_mean (value_or (zero floats) (get key s.positive))
        (value_or 0 (get key s.count))

  unfoldable pub apply_entity_statistics :
      Array String → Statistics F → Option (Columns (RateRow F))
  apply_entity_statistics keys s =
      emit_rows (λ current s' i. apply_row s' (keys.at i)) 0 s (positions keys.size) (λ i. none)
