-- ===== src/Features/RepeatExposure.antt =====
-- src/rex/features/repeat_exposure.py: what a user did with the same video before.
pub mod Alike
pub mod Served
use tiktok_techjam_recsys_ag.Prelude.{
  ℕ, suc, ◌+◌, ◌≡◌, ◌<◌, refl, ap, Bool, ◌&&◌, Option, none, some, List, [], ◌∷◌, String, string_eq,
  nat_eq, ◌==◌, if◌then◌else◌,
}
use tiktok_techjam_recsys_ag.Prelude.Int.{ℤ, pos, negsuc, ◌+ℤ◌}
use tiktok_techjam_recsys_ag.Prelude.Table.{Table, get, put}
use tiktok_techjam_recsys_ag.Data.Arrays.{
  Array, Columns, Numpy, IsNumpy, IsOrder, positions, ◌>>=◌, ◌>>◌, require,
}
use tiktok_techjam_recsys_ag.Data.Temporal.{date_batches}
use tiktok_techjam_recsys_ag.Features.Numbers.{Floats, pair_eq}
use tiktok_techjam_recsys_ag.Data.Arrays.{value_or}
use tiktok_techjam_recsys_ag.Features.PointInTime.{emit_rows, learn_rows, visit}
use tiktok_techjam_recsys_ag.Features.Calendar.{calendar_days_between}

-- The history of a user and a video.
pub record Exposures (F : Type 0) : Type 0 where
  pub counts : Table (String × String) ℕ
  pub positives : Table (String × String) ℤ
  pub last_outcome : Table (String × String) F
  pub last_date : Table (String × String) ℕ

pub record ExposureRow (F : Type 0) : Type 0 where
  pub prior_count : ℕ
  pub prior_positive : ℤ
  pub prior_last : F
  pub days_since : ℤ

abbrev pub no_exposures : {F : Type 0} → Exposures F
no_exposures = record { counts = []; positives = []; last_outcome = []; last_date = [] }

module _ {F : Type 0} (floats : Floats F) where
  -- `-1.0`
  abbrev pub minus_one : F
  minus_one = floats.literal (record { mantissa = negsuc 0; places = 0 })

  -- `np.zeros(rows)`, `np.full(rows, -1)`
  abbrev pub initial_row : ExposureRow F
  initial_row = record {
    prior_count = 0;
    prior_positive = pos 0;
    prior_last = minus_one;
    days_since = negsuc 0;
  }

  -- `calendar_days_between(…) if key in last_date else -1`
  abbrev pub days_after : ℕ → Option ℕ → Option ℤ
  days_after date none = some (negsuc 0)
  days_after date (some last) = calendar_days_between date last

  module _ (user_ids video_ids : Array String) (dates : Array ℕ) where
    abbrev pub pair_at : ℕ → String × String
    pair_at i = (user_ids.at i, video_ids.at i)

    abbrev pub emit_exposure : ℕ → Exposures F → ℕ → Option (ExposureRow F)
    emit_exposure current s i = do
      days ← days_after (dates.at i) (get (pair_at i) s.last_date)
      some (record {
        prior_count = value_or 0 (get (pair_at i) s.counts);
        prior_positive = value_or (pos 0) (get (pair_at i) s.positives);
        prior_last = value_or minus_one (get (pair_at i) s.last_outcome);
        days_since = days;
      })

    abbrev pub add_exposure : Array F → Exposures F → ℕ → Exposures F
    add_exposure labels s i = record {
      counts = put (pair_at i) (value_or 0 (get (pair_at i) s.counts) + 1) s.counts;
      positives =
          put (pair_at i)
            (value_or (pos 0) (get (pair_at i) s.positives) +ℤ floats.integer (labels.at i))
            s.positives;
      last_outcome = put (pair_at i) (labels.at i) s.last_outcome;
      last_date = put (pair_at i) (dates.at i) s.last_date;
    }

    abbrev pub learn_exposure : Array F → ℕ → Exposures F → ℕ → Option (Exposures F)
    learn_exposure labels current s i = some (add_exposure labels s i)

  module _ {Key : Type 0} (np : Numpy Key) where
    unfoldable pub repeat_exposure_features :
        Array String
        → Array String
        → Array ℕ
        → Array Key
        → Array F
        → Option (Columns (ExposureRow F))
    repeat_exposure_features user_ids video_ids dates row_ids labels = do
      let rows = user_ids.size
      require (
          video_ids.size == rows
          && dates.size == rows
          && row_ids.size == rows
          && labels.size == rows)
      visit dates.at (learn_exposure user_ids video_ids dates labels)
          (emit_exposure user_ids video_ids dates) (date_batches np dates row_ids) no_exposures
          (λ i. some initial_row)

    unfoldable pub fit_repeat_exposure_state :
        Array String → Array String → Array ℕ → Array F → Option (Exposures F)
    fit_repeat_exposure_state user_ids video_ids dates labels =
        learn_rows dates.at (learn_exposure user_ids video_ids dates labels) 0 no_exposures
          (np.argsort dates)

  -- `zip(…, strict=True)` raises where the lengths differ.
  unfoldable pub apply_repeat_exposure_state :
      Array String → Array String → Array ℕ → Exposures F → Option (Columns (ExposureRow F))
  apply_repeat_exposure_state user_ids video_ids dates s = do
    require (video_ids.size == user_ids.size && dates.size == user_ids.size)
    emit_rows (emit_exposure user_ids video_ids dates) 0 s (positions user_ids.size)
        (λ i. some initial_row)
