-- ===== src/Tests/Features.antt =====
-- The feature builders of src/rex/features on concrete rows.
use mathlib.Core.List.{Permᴰ}
use tiktok_techjam_recsys_ag.Prelude.{
  ℕ, zero, suc, ◌+◌, ◌≡◌, ◌≢◌, ◌≤◌, ◌<◌, refl, true, Option, none, some, List, [], ◌∷◌, map,
  String-discrete, Option-discrete, List-discrete, ℕ_discrete, nat_eq, filter_by, dedup, arith,
  is_some,
}
use tiktok_techjam_recsys_ag.Prelude.Int.{ℤ-discrete}
use tiktok_techjam_recsys_ag.Prelude.Table.{get, put}
use tiktok_techjam_recsys_ag.Data.Arrays.{Array, IsOrder, Columns}
use tiktok_techjam_recsys_ag.Data.Temporal.{date_batches}
use tiktok_techjam_recsys_ag.Features.Numbers.{Pair-discrete, Triple-discrete}
use tiktok_techjam_recsys_ag.Features.PointInTime.{emit_rows, learn_rows, visit}
use tiktok_techjam_recsys_ag.Features.Dated.{rows_before}
use tiktok_techjam_recsys_ag.Features.TemporalAggregates.{expanding_target_rate, RateRow}
use tiktok_techjam_recsys_ag.Features.TemporalAggregates.Expanded.{
  expanded_row, expanding_target_rate-Expands,
}
use tiktok_techjam_recsys_ag.Features.Calendar.{
  calendar_days_between, calendar_date, new_date, ordinal,
}
use tiktok_techjam_recsys_ag.Features.RepeatExposure.{
  initial_row, ExposureRow, Exposures, repeat_exposure_features, fit_repeat_exposure_state,
  apply_repeat_exposure_state,
}
use tiktok_techjam_recsys_ag.Features.RepeatExposure.Alike.{SameHistory}
use tiktok_techjam_recsys_ag.Features.RepeatExposure.Served.{repeat_exposure-Served}
use tiktok_techjam_recsys_ag.Data.Orders.{first, others}
use tiktok_techjam_recsys_ag.Features.TemporalOrder.{
  strict_timestamp_groups, validate_temporal_keys, elapsed_days, exponential_decay,
}
use tiktok_techjam_recsys_ag.Features.CandidateRecency.{
  RecencyRow, candidate_recency_features, recency_row, user_rows, add_recency, learn_users,
}
use tiktok_techjam_recsys_ag.Features.CandidateRecency.Earlier.{candidate_recency-Earlier}
use tiktok_techjam_recsys_ag.Features.MultiFeedback.{
  Labels, EntityRow, multifeedback_history_features, validate, rates_of, entity_rows, add_positives,
  add_entities, add_global, Entity-discrete, Feedback-discrete,
}
use tiktok_techjam_recsys_ag.Features.MultiFeedback.Earlier.{multifeedback-Earlier}
use tiktok_techjam_recsys_ag.Features.Recency.{
  UserRate, recency_history_features, learn_user, decay, user_row, mean_label,
}
use tiktok_techjam_recsys_ag.Features.Recency.Unseen.{recency_rate-unseen}
use tiktok_techjam_recsys_ag.Tests.Arrays.{
  np, np-IsNumpy, floats, numbers, days, videos, users, row_ids, days-IsOrder, sort_rows,
  insert_row,
}

expanding_target_rate-Expands_example :
    (columns : Columns (RateRow ℕ)) × (expanding_target_rate floats np videos days row_ids
        (numbers (1 ∷ 1 ∷ 0 ∷ []))
        20
      ≡ some columns)
    × ((i : ℕ)
        → i < 3
        → columns i
          ≡ some (
              expanded_row floats videos
                (numbers (1 ∷ 1 ∷ 0 ∷ []))
                20
                (rows_before np days row_ids i)
                i))
unfolding floats
expanding_target_rate-Expands_example =
    expanding_target_rate-Expands floats np np-IsNumpy videos days row_ids
      (numbers (1 ∷ 1 ∷ 0 ∷ [])) 20 refl refl refl (λ n. ground arith) days-IsOrder

-- What a call that returns has returned.
abbrev returned {ℓ} : {A : Type ℓ} → A → Option A → A
returned default none = default
returned default (some a) = a

returns :
    {A : Type 0} (default : A) (m : Option A) → is_some m ≡ true → m ≡ some (returned default m)
returns default none h = cc
returns default (some a) h = refl

abbrev exposures : Option (Columns (ExposureRow ℕ))
exposures = repeat_exposure_features floats np users videos days row_ids (numbers (1 ∷ 1 ∷ 0 ∷ []))

exposures_returned : is_some exposures ≡ true
unfolding repeat_exposure_features np visit emit_rows learn_rows get put date_batches filter_by
    String-discrete Pair-discrete ℕ_discrete ℤ-discrete calendar_days_between calendar_date new_date
    floats
exposures_returned = refl

-- The second row is the first of its user and video; a day after it comes the first row.
exposures_counted :
    map
      (λ row. row.prior_count)
      (map (λ i. returned (initial_row floats) (returned (λ j. none) exposures i)) (0 ∷ 1 ∷ 2 ∷ []))
    ≡ 1 ∷ 0 ∷ 2 ∷ []
unfolding repeat_exposure_features np visit emit_rows learn_rows get put date_batches filter_by
    String-discrete Pair-discrete ℕ_discrete ℤ-discrete calendar_days_between calendar_date new_date
    ordinal floats
exposures_counted = refl

first_days : (j : ℕ) → j < 2 → days.at j < 20220410
first_days zero h = omega arith
first_days (suc zero) h = omega arith
first_days (suc (suc j)) h = absurd (omega arith)

last_days : (j : ℕ) → 2 ≤ j → j < 3 → days.at j ≡ 20220410
last_days zero h l = absurd (omega arith)
last_days (suc zero) h l = absurd (omega arith)
last_days (suc (suc j)) h l = refl

first-IsOrder : IsOrder (first 2 days) (np.argsort (first 2 days))
unfolding np sort_rows insert_row
first-IsOrder = record { each = Permᴰ.swap refl refl; chronological = omega arith }

repeat_exposure-Served_example :
    (state : Exposures ℕ) × (fit_repeat_exposure_state floats np
        (first 2 users)
        (first 2 videos)
        (first 2 days)
        (first 2 (numbers (1 ∷ 1 ∷ 0 ∷ [])))
      ≡ some state)
    × (served : Columns (ExposureRow ℕ)) × (apply_repeat_exposure_state floats
          (others 2 users)
          (others 2 videos)
          (others 2 days)
          state
        ≡ some served)
    × ((k : ℕ)
        → k < 1
        → (row : ExposureRow ℕ) × (returned (λ j. none) exposures (2 + k) ≡ some row)
          × (row' : ExposureRow ℕ) × (served k ≡ some row')
          × SameHistory row row')
repeat_exposure-Served_example =
    repeat_exposure-Served floats np np-IsNumpy users videos days row_ids (numbers (1 ∷ 1 ∷ 0 ∷ []))
      2 1 20220410 refl first_days last_days days-IsOrder first-IsOrder
      (returns (λ j. none) exposures exposures_returned)

-- Two label arrays that agree on the second row, which is of the day before the first.
abbrev recency : Array ℕ → Option (Columns (RecencyRow ℕ))
recency labels =
    candidate_recency_features floats np users videos users days row_ids labels (7 ∷ []) 10 7

candidate_recency-Earlier_example :
    returned (λ j. none) (recency (numbers (1 ∷ 1 ∷ 0 ∷ []))) 0
    ≡ returned (λ j. none) (recency (numbers (0 ∷ 1 ∷ 1 ∷ []))) 0
unfolding candidate_recency_features strict_timestamp_groups validate_temporal_keys recency_row
    user_rows add_recency learn_users exponential_decay elapsed_days np visit emit_rows learn_rows
    get put String-discrete Pair-discrete ℕ_discrete dedup floats
candidate_recency-Earlier_example =
    candidate_recency-Earlier floats np np-IsNumpy users videos users days row_ids (7 ∷ []) 10 7
      (numbers (1 ∷ 1 ∷ 0 ∷ [])) (numbers (0 ∷ 1 ∷ 1 ∷ [])) days-IsOrder
      (returns (λ j. none) (recency (numbers (1 ∷ 1 ∷ 0 ∷ []))) refl)
      (returns (λ j. none) (recency (numbers (0 ∷ 1 ∷ 1 ∷ []))) refl) 0 (omega arith) agree
  where
    agree :
        (j : ℕ)
        → days.at j < 20220409
        → (numbers (1 ∷ 1 ∷ 0 ∷ [])).at j ≡ (numbers (0 ∷ 1 ∷ 1 ∷ [])).at j
    agree zero h = absurd (omega arith)
    agree (suc zero) h = refl
    agree (suc (suc j)) h = absurd (omega arith)

-- The channels of feedback, each with the same labels.
abbrev channels : List ℕ → Labels ℕ
channels xs name = some (numbers xs)

abbrev feedback : Labels ℕ → Option (Columns (List (EntityRow ℕ)))
feedback labels = multifeedback_history_features floats np users videos users days row_ids labels 20

multifeedback-Earlier_example :
    returned (λ j. none) (feedback (channels (1 ∷ 1 ∷ 0 ∷ []))) 0
    ≡ returned (λ j. none) (feedback (channels (0 ∷ 1 ∷ 1 ∷ []))) 0
unfolding multifeedback_history_features strict_timestamp_groups validate_temporal_keys validate
    rates_of entity_rows add_positives add_entities add_global np visit emit_rows learn_rows get put
    String-discrete List-discrete Pair-discrete Triple-discrete Entity-discrete Feedback-discrete
    ℕ_discrete dedup floats
multifeedback-Earlier_example =
    multifeedback-Earlier floats np np-IsNumpy users videos users days row_ids 20
      (channels (1 ∷ 1 ∷ 0 ∷ [])) (channels (0 ∷ 1 ∷ 1 ∷ [])) days-IsOrder
      (returns (λ j. none) (feedback (channels (1 ∷ 1 ∷ 0 ∷ []))) refl)
      (returns (λ j. none) (feedback (channels (0 ∷ 1 ∷ 1 ∷ []))) refl) 0 (omega arith)
      (λ j h name. agree j h)
  where
    agree :
        (j : ℕ)
        → days.at j < 20220409
        → (numbers (1 ∷ 1 ∷ 0 ∷ [])).at j ≡ (numbers (0 ∷ 1 ∷ 1 ∷ [])).at j
    agree zero h = absurd (omega arith)
    agree (suc zero) h = refl
    agree (suc (suc j)) h = absurd (omega arith)

-- The second row is the first of its user, and its rate rests on the labels of all three.
abbrev user_rates : Array ℕ → Option (Columns (UserRate ℕ))
user_rates labels = recency_history_features floats np users days row_ids labels 7 10

recency_rate-unseen_example :
    returned (λ j. none) (user_rates (numbers (9 ∷ 0 ∷ 9 ∷ []))) 1
    ≡ user_row floats 10 (mean_label floats (numbers (9 ∷ 0 ∷ 9 ∷ []))) 0 0
unfolding recency_history_features learn_user decay np visit emit_rows learn_rows get put
    date_batches filter_by String-discrete Option-discrete ℕ_discrete ℤ-discrete
    calendar_days_between calendar_date new_date floats
recency_rate-unseen_example =
    recency_rate-unseen floats np np-IsNumpy users days row_ids (numbers (9 ∷ 0 ∷ 9 ∷ [])) 7 10
      days-IsOrder (returns (λ j. none) (user_rates (numbers (9 ∷ 0 ∷ 9 ∷ []))) refl) 1
      (omega arith) none_before
  where
    none_before : (j : ℕ) → days.at j < 20220408 → users.at j ≢ users.at 1
    none_before zero h = absurd (omega arith)
    none_before (suc zero) h = absurd (omega arith)
    none_before (suc (suc j)) h = absurd (omega arith)
