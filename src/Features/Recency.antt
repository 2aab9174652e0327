-- ===== src/Features/Recency.antt =====
-- src/rex/features/recency.py: decayed counts of what a user did before.
pub mod Unseen
use tiktok_techjam_recsys_ag.Prelude.{
  ℕ, ◌+◌, ◌&&◌, not, Bool, true, false, Option, none, some, List, [], ◌∷◌, String, string_eq,
  nat_eq, option_eq, ◌==◌, if◌then◌else◌,
}
use tiktok_techjam_recsys_ag.Prelude.Int.{ℤ, pos_part}
use tiktok_techjam_recsys_ag.Prelude.Table.{Table, get, put}
use tiktok_techjam_recsys_ag.Data.Arrays.{Array, Columns, Numpy, positions, ◌>>=◌, ◌>>◌, require}
use tiktok_techjam_recsys_ag.Data.Temporal.{date_batches}
use tiktok_techjam_recsys_ag.Features.Numbers.{Floats, zero, divide, members}
use tiktok_techjam_recsys_ag.Data.Arrays.{value_or}
use tiktok_techjam_recsys_ag.Features.TemporalAggregates.{one_half}
use tiktok_techjam_recsys_ag.Features.PointInTime.{emit_rows, learn_rows, visit}
use tiktok_techjam_recsys_ag.Features.Calendar.{calendar_days_between}

pub record UserHistory (F : Type 0) : Type 0 where
  pub positive : Table String F
  pub count : Table String F
  pub last_date : Table String ℕ

pub record UserRate (F : Type 0) : Type 0 where
  pub user_rate : F
  pub user_count : F

-- What `fit_recency_state` returns.
pub record UserState (F : Type 0) : Type 0 where
  pub history : UserHistory F
  pub global_mean : F
  pub half_life_days : F
  pub prior_strength : F

abbrev pub no_history : {F : Type 0} → UserHistory F
no_history = record { positive = []; count = []; last_date = [] }

module _ {F : Type 0} (floats : Floats F) where
  -- `_decay`; `max(days, 0)` is a natural number.
  unfoldable pub decay : ℤ → F → Option F
  decay days half_life_days = do
    exponent ← divide floats (floats.whole (pos_part days)) half_life_days
    some (floats.half_to exponent)

  -- `_decay(…) if user in last_date else 1.0`
  abbrev pub factor_since : ℕ → F → Option ℕ → Option F
  factor_since current half_life_days none = some (floats.whole 1)
  factor_since current half_life_days (some last) = do
    days ← calendar_days_between current last
    decay days half_life_days

  -- `float(np.mean(labels)) if len(labels) else 0.5`
  abbrev pub mean_label : Array F → F
  mean_label labels = if labels.size == 0 then one_half floats else floats.mean (members labels)

  -- The rate of decayed counts, with the mean that stands for a missing history.
  abbrev pub user_row : F → F → F → F → Option (UserRate F)
  user_row prior_strength mean positive count = do
    rate ←
        divide floats (floats.plus positive (floats.times prior_strength mean))
          (floats.plus count prior_strength)
    some (record { user_rate = floats.single rate; user_count = floats.single count })

  module _ (user_ids : Array String) where
    abbrev pub emit_user : F → F → F → ℕ → UserHistory F → ℕ → Option (UserRate F)
    emit_user half_life_days prior_strength mean current s i = do
      factor ← factor_since current half_life_days (get (user_ids.at i) s.last_date)
      user_row prior_strength mean
          (floats.times (value_or (zero floats) (get (user_ids.at i) s.positive)) factor)
          (floats.times (value_or (zero floats) (get (user_ids.at i) s.count)) factor)

    -- What is stored for the user before the label of a row is added: `if last_date.get(user) != current`.
    abbrev pub decay_user : F → ℕ → UserHistory F → ℕ → Option (UserHistory F)
    decay_user half_life_days current s i = do
      factor ← factor_since current half_life_days (get (user_ids.at i) s.last_date)
      some (record {
        positive =
            put (user_ids.at i)
              (floats.times (value_or (zero floats) (get (user_ids.at i) s.positive)) factor)
              s.positive;
        count =
            put (user_ids.at i)
              (floats.times (value_or (zero floats) (get (user_ids.at i) s.count)) factor) s.count;
        last_date = put (user_ids.at i) current s.last_date;
      })

    -- `positive[user] += …` and `count[user] += 1.0`
    abbrev pub add_user : Array F → UserHistory F → ℕ → UserHistory F
    add_user labels s i = record s {
      positive =
          put (user_ids.at i)
            (floats.plus (value_or (zero floats) (get (user_ids.at i) s.positive)) (labels.at i))
            s.positive;
      count =
          put (user_ids.at i)
            (floats.plus (value_or (zero floats) (get (user_ids.at i) s.count)) (floats.whole 1))
            s.count;
    }

    unfoldable pub learn_user : F → Array F → ℕ → UserHistory F → ℕ → Option (UserHistory F)
    learn_user half_life_days labels current s i = do
      s' ←
          if get (user_ids.at i) s.last_date == some current
          then some s
          else decay_user half_life_days current s i
      some (add_user labels s' i)

    -- What a fit learns of a row: it decays only a user that was seen on another date.
    abbrev pub stale_user : F → ℕ → UserHistory F → ℕ → Option ℕ → Option (UserHistory F)
    stale_user half_life_days current s i none = some s
    stale_user half_life_days current s i (some last) =
        if current == last then some s else decay_user half_life_days current s i

    unfoldable pub fit_user : F → Array F → Array ℕ → ℕ → UserHistory F → ℕ → Option (UserHistory F)
    fit_user half_life_days labels dates current s i = do
      s' ← stale_user half_life_days (dates.at i) s i (get (user_ids.at i) s.last_date)
      some (record (add_user labels s' i) {
        last_date = put (user_ids.at i) (dates.at i) s'.last_date;
      })

  unfoldable pub recency_history_features :
      {Key : Type 0}
      → Numpy Key
      → Array String
      → Array ℕ
      → Array Key
      → Array F
      → F
      → F
      → Option (Columns (UserRate F))
  recency_history_features np user_ids dates row_ids labels half_life_days prior_strength = do
    require (not (floats.is_nonpositive half_life_days))
    visit dates.at (learn_user user_ids half_life_days labels)
        (emit_user user_ids half_life_days prior_strength (mean_label labels))
        (date_batches np dates row_ids) no_history (λ i. none)

  unfoldable pub fit_recency_state :
      {Key : Type 0} → Numpy Key → Array String → Array ℕ → Array F → F → F → Option (UserState F)
  fit_recency_state np user_ids dates labels half_life_days prior_strength = do
    require (not (floats.is_nonpositive half_life_days))
    history ←
        learn_rows dates.at (fit_user user_ids half_life_days labels dates) 0 no_history
          (np.argsort dates)
    some (record {
      history = history;
      global_mean = mean_label labels;
      half_life_days = half_life_days;
      prior_strength = prior_strength;
    })

  -- `zip(…, strict=True)` raises where the lengths differ.
  unfoldable pub apply_recency_state :
      Array String → Array ℕ → UserState F → Option (Columns (UserRate F))
  apply_recency_state user_ids dates s = do
    require (dates.size == user_ids.size)
    emit_rows
        (λ current history i.
          emit_user user_ids s.half_life_days s.prior_strength s.global_mean (dates.at i) history i)
        0 s.history (positions user_ids.size) (λ i. none)
