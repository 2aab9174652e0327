-- ===== src/Features/CandidateRecency.antt =====
-- src/rex/features/candidate_recency.py: decayed histories of a user, of a user and an author, and of a user
-- and a video. The dictionaries for each half-life are one dictionary whose keys hold its position.
pub mod Earlier
use tiktok_techjam_recsys_ag.Prelude.{
  ℕ, suc, ◌+◌, Bool, true, false, ◌&&◌, ◌||◌, not, Option, none, some, List, [], ◌∷◌, String,
  string_eq, nat_eq, Eq, ◌==◌, any, all, is_some, if◌then◌else◌,
}
use tiktok_techjam_recsys_ag.Prelude.Int.{pos, negsuc}
use tiktok_techjam_recsys_ag.Prelude.Table.{Table, get, put}
use tiktok_techjam_recsys_ag.Data.Arrays.{Array, Columns, Numpy, positions, ◌>>=◌, ◌>>◌, require}
use tiktok_techjam_recsys_ag.Features.Numbers.{Floats, pair_eq, zero, divide, members}
use tiktok_techjam_recsys_ag.Data.Arrays.{value_or}
use tiktok_techjam_recsys_ag.Features.TemporalAggregates.{one_half, prior_mean}
use tiktok_techjam_recsys_ag.Features.RepeatExposure.{minus_one}
use tiktok_techjam_recsys_ag.Features.PointInTime.{emit_rows, learn_batches, visit}
use tiktok_techjam_recsys_ag.Features.TemporalOrder.{
  strict_timestamp_groups, elapsed_days, exponential_decay,
}

-- A user's videos or authors, and a user at the position of a half-life.
abbrev pub Pair : Type 0
Pair = String × String

abbrev pub UserKey : Type 0
UserKey = ℕ × String

pub record RecencyHistory (F : Type 0) : Type 0 where
  pub user_positive : Table UserKey F
  pub user_count : Table UserKey F
  pub user_last_time : Table UserKey ℕ
  pub author_positive : Table Pair F
  pub author_count : Table Pair F
  pub author_last_time : Table Pair ℕ
  pub video_count : Table Pair ℕ
  pub video_positive : Table Pair ℕ
  pub video_last_outcome : Table Pair F
  pub video_last_time : Table Pair ℕ
  pub global_positive : F
  pub global_count : ℕ

-- `pt_user_rate_h…` and `pt_user_count_h…`, for each half-life.
pub record UserRow (F : Type 0) : Type 0 where
  pub user_rate : F
  pub user_count : F

pub record RecencyRow (F : Type 0) : Type 0 where
  pub author_rate : F
  pub author_count : F
  pub author_days_since : F
  pub video_count : ℕ
  pub video_positive : ℕ
  pub video_last_outcome : F
  pub video_days_since : F
  pub users : List (UserRow F)

-- What `fit_candidate_recency_state` returns.
pub record RecencyState (F : Type 0) : Type 0 where
  pub global_mean : F
  pub prior_strength : F
  pub half_lives_days : List F
  pub candidate_half_life_days : F
  pub history : RecencyHistory F

module _ {F : Type 0} (floats : Floats F) where
  abbrev pub no_recency : RecencyHistory F
  no_recency = record {
    user_positive = [];
    user_count = [];
    user_last_time = [];
    author_positive = [];
    author_count = [];
    author_last_time = [];
    video_count = [];
    video_positive = [];
    video_last_outcome = [];
    video_last_time = [];
    global_positive = zero floats;
    global_count = 0;
  }

  -- A value after its last time, or as it is.
  abbrev pub decay_since : F → ℕ → F → Option ℕ → Option F
  decay_since value current half_life none = some value
  decay_since value current half_life (some last) = do
    factor ← exponential_decay floats current last half_life
    some (floats.times value factor)

  -- `_decayed_value`
  abbrev pub decayed_value : {K : Type 0} ⦃e : Eq K⦄ → Table K F → Table K ℕ → K → ℕ → F → Option F
  decayed_value values last_time key current half_life =
      decay_since (value_or (zero floats) (get key values)) current half_life (get key last_time)

  -- `elapsed_days(current, last_time[key])` where there is one, and -1.0
  abbrev pub days_since : ℕ → Option ℕ → F
  days_since current none = floats.single (minus_one floats)
  days_since current (some last) = floats.single (elapsed_days floats current last)

  -- `(positive + prior_strength * mean) / (count + prior_strength)`
  abbrev pub smoothed : F → F → F → F → Option F
  smoothed positive count prior_strength mean =
      divide floats (floats.plus positive (floats.times prior_strength mean))
        (floats.plus count prior_strength)

  module _ (user_ids video_ids author_ids : Array String) (times : Array ℕ) where
    abbrev pub author_key : ℕ → Pair
    author_key i = (user_ids.at i, author_ids.at i)

    abbrev pub video_key : ℕ → Pair
    video_key i = (user_ids.at i, video_ids.at i)

    -- `for position, half_life in enumerate(half_lives_days)`
    unfoldable pub user_rows :
        F → F → RecencyHistory F → ℕ → String → ℕ → List F → Option (List (UserRow F))
    user_rows prior_strength mean s current user position [] = some []
    user_rows prior_strength mean s current user position (half_life ∷ half_lives) = do
      positive ← decayed_value s.user_positive s.user_last_time (position, user) current half_life
      count ← decayed_value s.user_count s.user_last_time (position, user) current half_life
      rate ← smoothed positive count prior_strength mean
      rows ← user_rows prior_strength mean s current user (position + 1) half_lives
      some (record { user_rate = floats.single rate; user_count = floats.single count } ∷ rows)

    -- The features of a row at a time, with the mean that stands for a missing history.
    unfoldable pub recency_row :
        F → List F → F → F → ℕ → RecencyHistory F → ℕ → Option (RecencyRow F)
    recency_row prior_strength half_lives candidate_half_life mean current s i = do
      positive ←
          decayed_value s.author_positive s.author_last_time (author_key i) current
            candidate_half_life
      count ←
          decayed_value s.author_count s.author_last_time (author_key i) current candidate_half_life
      rate ← smoothed positive count prior_strength mean
      users ← user_rows prior_strength mean s current (user_ids.at i) 0 half_lives
      some (record {
        author_rate = floats.single rate;
        author_count = floats.single count;
        author_days_since = days_since current (get (author_key i) s.author_last_time);
        video_count = value_or 0 (get (video_key i) s.video_count);
        video_positive = value_or 0 (get (video_key i) s.video_positive);
        video_last_outcome =
            floats.single (value_or (minus_one floats) (get (video_key i) s.video_last_outcome));
        video_days_since = days_since current (get (video_key i) s.video_last_time);
        users = users;
      })

    abbrev pub emit_recency : F → List F → F → ℕ → RecencyHistory F → ℕ → Option (RecencyRow F)
    emit_recency prior_strength half_lives candidate_half_life current s i =
        recency_row prior_strength half_lives candidate_half_life
          (prior_mean floats s.global_positive s.global_count) current s i

    -- `for position, half_life in enumerate(half_lives_days)`, on the history
    unfoldable pub learn_users :
        F → ℕ → String → ℕ → List F → RecencyHistory F → Option (RecencyHistory F)
    learn_users label current user position [] s = some s
    learn_users label current user position (half_life ∷ half_lives) s = do
      positive ← decayed_value s.user_positive s.user_last_time (position, user) current half_life
      count ← decayed_value s.user_count s.user_last_time (position, user) current half_life
      learn_users label current user (position + 1) half_lives (record s {
        user_positive = put (position, user) (floats.plus positive label) s.user_positive;
        user_count = put (position, user) (floats.plus count (floats.whole 1)) s.user_count;
        user_last_time = put (position, user) current s.user_last_time;
      })

    -- What is learned of a row but for the global counts, from its label.
    unfoldable pub add_recency :
        List F → F → F → ℕ → RecencyHistory F → ℕ → Option (RecencyHistory F)
    add_recency half_lives candidate_half_life label current s i = do
      positive ←
          decayed_value s.author_positive s.author_last_time (author_key i) current
            candidate_half_life
      count ←
          decayed_value s.author_count s.author_last_time (author_key i) current candidate_half_life
      learn_users label current (user_ids.at i) 0 half_lives (record s {
        author_positive = put (author_key i) (floats.plus positive label) s.author_positive;
        author_count = put (author_key i) (floats.plus count (floats.whole 1)) s.author_count;
        author_last_time = put (author_key i) current s.author_last_time;
        video_count =
            put (video_key i) (value_or 0 (get (video_key i) s.video_count) + 1) s.video_count;
        video_positive =
            put (video_key i)
              (value_or 0 (get (video_key i) s.video_positive)
                + (if floats.less (one_half floats) label then 1 else 0))
              s.video_positive;
        video_last_outcome = put (video_key i) label s.video_last_outcome;
        video_last_time = put (video_key i) current s.video_last_time;
      })

    abbrev pub learn_recency :
        List F → F → Array F → ℕ → RecencyHistory F → ℕ → Option (RecencyHistory F)
    learn_recency half_lives candidate_half_life labels current s i = do
      s' ← add_recency half_lives candidate_half_life (labels.at i) current s i
      some (record s' {
        global_positive = floats.plus s'.global_positive (labels.at i);
        global_count = s'.global_count + 1;
      })

  -- `_validate_inputs`
  abbrev pub validate_inputs : ℕ → List ℕ → Bool
  validate_inputs rows sizes = all (λ size. size == rows) sizes

  unfoldable pub candidate_recency_features :
      Numpy String
      → Array String
      → Array String
      → Array String
      → Array ℕ
      → Array String
      → Array F
      → List F
      → F
      → F
      → Option (Columns (RecencyRow F))
  candidate_recency_features np user_ids video_ids author_ids times keys labels half_lives
        prior_strength candidate_half_life =
      do
        require (
            validate_inputs user_ids.size
              (video_ids.size ∷ author_ids.size ∷ times.size ∷ keys.size ∷ labels.size ∷ []))
        require (
            not (
              floats.is_nonpositive prior_strength
              || any (λ h. floats.is_nonpositive h) half_lives))
        require (all (λ x. floats.is_finite x) (members labels))
        groups ← strict_timestamp_groups np times keys
        visit times.at
            (learn_recency user_ids video_ids author_ids times half_lives candidate_half_life
              labels)
            (emit_recency user_ids video_ids author_ids times prior_strength half_lives
              candidate_half_life)
            groups no_recency (λ i. none)

  unfoldable pub fit_candidate_recency_state :
      Numpy String
      → Array String
      → Array String
      → Array String
      → Array ℕ
      → Array String
      → Array F
      → List F
      → F
      → F
      → Option (RecencyState F)
  fit_candidate_recency_state np user_ids video_ids author_ids times keys labels half_lives
        prior_strength candidate_half_life =
      do
        require (
            validate_inputs user_ids.size
              (video_ids.size ∷ author_ids.size ∷ times.size ∷ keys.size ∷ labels.size ∷ []))
        groups ← strict_timestamp_groups np times keys
        history ←
            learn_batches times.at
              (λ current s i.
                add_recency user_ids video_ids author_ids times half_lives candidate_half_life
                  (labels.at i) current s i)
              groups no_recency
        some (record {
          global_mean = if labels.size == 0 then one_half floats else floats.mean (members labels);
          prior_strength = prior_strength;
          half_lives_days = half_lives;
          candidate_half_life_days = candidate_half_life;
          history = history;
        })

  unfoldable pub apply_candidate_recency_state :
      Array String
      → Array String
      → Array String
      → Array ℕ
      → RecencyState F
      → Option (Columns (RecencyRow F))
  apply_candidate_recency_state user_ids video_ids author_ids times s = do
    require (validate_inputs user_ids.size (video_ids.size ∷ author_ids.size ∷ times.size ∷ []))
    emit_rows
        (λ current history i.
          recency_row user_ids video_ids author_ids times s.prior_strength s.half_lives_days
            s.candidate_half_life_days s.global_mean (times.at i) history i)
        0 s.history (positions user_ids.size) (λ i. none)
