-- ===== src/Features/MultiFeedback.antt =====
-- src/rex/features/multifeedback_history.py: rates of the feedback channels before a row. The dictionaries of
-- an entity are one dictionary whose keys hold the entity; a label that is not finite is not binary.
pub mod Earlier
use tiktok_techjam_recsys_ag.Prelude.{
  ℕ, suc, ◌+◌, Bool, false, ◌&&◌, ◌||◌, not, Option, none, some, List, [], ◌∷◌, String, string_eq,
  nat_eq, list_eq, Eq, ◌==◌, all, if◌then◌else◌,
}
use tiktok_techjam_recsys_ag.Prelude.Int.{pos}
use tiktok_techjam_recsys_ag.Prelude.Table.{Table, get, put}
use tiktok_techjam_recsys_ag.Data.Arrays.{Array, Columns, Numpy, positions, ◌>>=◌, ◌>>◌, require}
use tiktok_techjam_recsys_ag.Features.Numbers.{
  Floats, pair_eq, zero, divide, members, Triple-discrete,
}
use tiktok_techjam_recsys_ag.Data.Arrays.{value_or}
use tiktok_techjam_recsys_ag.Features.TemporalAggregates.{one_half}
use tiktok_techjam_recsys_ag.Features.PointInTime.{emit_rows, learn_batches, visit}
use tiktok_techjam_recsys_ag.Features.TemporalOrder.{strict_timestamp_groups}

pub data Entity : Type 0 where
  user user_author video author : Entity

pub data Feedback : Type 0 where
  is_click is_like is_follow is_hate long_view : Feedback

unfoldable pub Entity-discrete : Discrete Entity
Entity-discrete = hlevel

unfoldable pub Feedback-discrete : Discrete Feedback
Feedback-discrete = hlevel

instance abbrev pub entity_eq : Eq Entity
entity_eq = record { dec = Entity-discrete }

instance abbrev pub feedback_eq : Eq Feedback
feedback_eq = record { dec = Feedback-discrete }

-- ENTITY_FEEDBACK
abbrev pub entity_feedback : List (Entity × List Feedback)
entity_feedback =
    (user, is_click ∷ is_like ∷ is_follow ∷ is_hate ∷ long_view ∷ [])
    ∷ (user_author, is_click ∷ is_like ∷ long_view ∷ [])
    ∷ (video, is_click ∷ long_view ∷ [])
    ∷ (author, is_click ∷ long_view ∷ [])
    ∷ []

-- The names of all entities.
abbrev pub required : List Feedback
required = is_click ∷ is_like ∷ is_follow ∷ is_hate ∷ long_view ∷ []

abbrev pub Key : Type 0
Key = List String

-- `_entity_key`
abbrev pub entity_key : Entity → String → String → String → Key
entity_key user u v a = u ∷ []
entity_key video u v a = v ∷ []
entity_key author u v a = a ∷ []
entity_key user_author u v a = u ∷ a ∷ []

-- The labels of each channel, some of which may be missing.
abbrev pub Labels : Type 0 → Type 0
Labels F = Feedback → Option (Array F)

-- `feedback[name][index]`, for a channel that is there.
abbrev pub label_of : {F : Type 0} → F → Option (Array F) → ℕ → F
label_of default none i = default
label_of default (some labels) i = labels.at i

pub record FeedbackHistory (F : Type 0) : Type 0 where
  pub counts : Table (Entity × Key) ℕ
  pub positives : Table (Entity × Feedback × Key) F
  pub global_positive : Table Feedback F
  pub global_count : ℕ

pub record EntityRow (F : Type 0) : Type 0 where
  pub count : ℕ
  pub rates : List (Feedback × F)

instance abbrev pub triple_eq : {A B C : Type 0} ⦃d : Eq A⦄ ⦃e : Eq B⦄ ⦃f : Eq C⦄ → Eq (A × B × C)
triple_eq ⦃d⦄ ⦃e⦄ ⦃f⦄ = record { dec = Triple-discrete d.dec e.dec f.dec }

-- What `fit_multifeedback_state` returns.
pub record FeedbackState (F : Type 0) : Type 0 where
  pub prior_strength : F
  pub history : FeedbackHistory F
  pub global_means : Feedback → F

module _ {F : Type 0} (floats : Floats F) where
  abbrev pub no_feedback : FeedbackHistory F
  no_feedback = record { counts = []; positives = []; global_positive = []; global_count = 0 }

  -- `np.isin(labels, (0, 1))`
  abbrev pub is_binary : F → Bool
  is_binary x = floats.is_zero x || floats.is_zero (floats.minus x (floats.whole 1))

  abbrev pub is_valid_label : ℕ → Option (Array F) → Bool
  is_valid_label rows none = false
  is_valid_label rows (some labels) = labels.size == rows && all is_binary (members labels)

  -- `_validate`
  unfoldable pub validate :
      Array String
      → Array String
      → Array String
      → Array ℕ
      → Array String
      → Labels F
      → Option (Unit {0})
  validate user_ids video_ids author_ids times keys feedback = do
    let rows = user_ids.size
    require (
        video_ids.size == rows
        && author_ids.size == rows
        && times.size == rows
        && keys.size == rows)
    require (all (λ name. is_valid_label rows (feedback name)) required)

  -- The rates of an entity, by the means that stand for rows without a history.
  unfoldable pub rates_of :
      F → (Feedback → F) → (Feedback → F) → ℕ → List Feedback → Option (List (Feedback × F))
  rates_of prior_strength priors positives count [] = some []
  rates_of prior_strength priors positives count (name ∷ names) = do
    rate ←
        divide floats (floats.plus (positives name) (floats.times prior_strength (priors name)))
          (floats.plus (floats.whole count) prior_strength)
    rates ← rates_of prior_strength priors positives count names
    some ((name, floats.single rate) ∷ rates)

  module _ (user_ids video_ids author_ids : Array String) where
    abbrev pub key_at : Entity → ℕ → Key
    key_at entity i = entity_key entity (user_ids.at i) (video_ids.at i) (author_ids.at i)

    -- `for entity, feedback_names in ENTITY_FEEDBACK.items()`
    unfoldable pub entity_rows :
        F
        → (Feedback → F)
        → FeedbackHistory F
        → ℕ
        → List (Entity × List Feedback)
        → Option (List (EntityRow F))
    entity_rows prior_strength priors s i [] = some []
    entity_rows prior_strength priors s i ((entity, names) ∷ entities) = do
      let count = value_or 0 (get (entity, key_at entity i) s.counts)
      rates ←
          rates_of prior_strength priors
            (λ name. value_or (zero floats) (get (entity, name, key_at entity i) s.positives)) count
            names
      rows ← entity_rows prior_strength priors s i entities
      some (record { count = count; rates = rates } ∷ rows)

    -- The means of the history, or one half.
    abbrev pub priors_of : FeedbackHistory F → Feedback → F
    priors_of s name =
        if s.global_count == 0
        then one_half floats
        else floats.over (value_or (zero floats) (get name s.global_positive))
            (floats.whole s.global_count)

    abbrev pub emit_feedback : F → ℕ → FeedbackHistory F → ℕ → Option (List (EntityRow F))
    emit_feedback prior_strength current s i =
        entity_rows prior_strength (priors_of s) s i entity_feedback

    module _ (feedback : Labels F) where
      abbrev pub label_at : Feedback → ℕ → F
      label_at name i = label_of (zero floats) (feedback name) i

      -- `positives[entity][feedback_name][key] += …`
      unfoldable pub add_positives :
          Entity
          → ℕ
          → List Feedback
          → Table (Entity × Feedback × Key) F
          → Table (Entity × Feedback × Key) F
      add_positives entity i [] t = t
      add_positives entity i (name ∷ names) t =
          let key : Entity × Feedback × Key = (entity, name, key_at entity i) in
          add_positives entity i names
            (put key (floats.plus (value_or (zero floats) (get key t)) (label_at name i)) t)

      unfoldable pub add_entities :
          ℕ → List (Entity × List Feedback) → FeedbackHistory F → FeedbackHistory F
      add_entities i [] s = s
      add_entities i ((entity, names) ∷ entities) s =
          let key : Entity × Key = (entity, key_at entity i) in
          add_entities i entities (record s {
            counts = put key (value_or 0 (get key s.counts) + 1) s.counts;
            positives = add_positives entity i names s.positives;
          })

      -- `global_positive[feedback_name] += …`
      unfoldable pub add_global : ℕ → List Feedback → Table Feedback F → Table Feedback F
      add_global i [] t = t
      add_global i (name ∷ names) t =
          add_global i names
            (put name (floats.plus (value_or (zero floats) (get name t)) (label_at name i)) t)

      abbrev pub learn_feedback : ℕ → FeedbackHistory F → ℕ → Option (FeedbackHistory F)
      learn_feedback current s i =
          let s' = add_entities i entity_feedback s in
          some (record s' {
            global_positive = add_global i required s'.global_positive;
            global_count = s'.global_count + 1;
          })

      -- What a fit learns of a row: no global counts.
      abbrev pub fit_feedback : ℕ → FeedbackHistory F → ℕ → Option (FeedbackHistory F)
      fit_feedback current s i = some (add_entities i entity_feedback s)

  unfoldable pub multifeedback_history_features :
      Numpy String
      → Array String
      → Array String
      → Array String
      → Array ℕ
      → Array String
      → Labels F
      → F
      → Option (Columns (List (EntityRow F)))
  multifeedback_history_features np user_ids video_ids author_ids times keys feedback
        prior_strength =
      do
        validate user_ids video_ids author_ids times keys feedback
        require (not (floats.is_nonpositive prior_strength))
        groups ← strict_timestamp_groups np times keys
        visit times.at (learn_feedback user_ids video_ids author_ids feedback)
            (emit_feedback user_ids video_ids author_ids prior_strength) groups no_feedback
            (λ i. none)

  -- `float(np.mean(feedback[name])) if len(feedback[name]) else 0.5`
  abbrev pub mean_of : Option (Array F) → F
  mean_of none = one_half floats
  mean_of (some labels) = if labels.size == 0 then one_half floats else floats.mean (members labels)

  unfoldable pub fit_multifeedback_state :
      Numpy String
      → Array String
      → Array String
      → Array String
      → Array ℕ
      → Array String
      → Labels F
      → F
      → Option (FeedbackState F)
  fit_multifeedback_state np user_ids video_ids author_ids times keys feedback prior_strength = do
    validate user_ids video_ids author_ids times keys feedback
    require (not (floats.is_nonpositive prior_strength))
    groups ← strict_timestamp_groups np times keys
    history ←
        learn_batches times.at (fit_feedback user_ids video_ids author_ids feedback) groups
          no_feedback
    some (record {
      prior_strength = prior_strength;
      history = history;
      global_means = λ name. mean_of (feedback name);
    })

  unfoldable pub apply_multifeedback_state :
      Array String
      → Array String
      → Array String
      → FeedbackState F
      → Option (Columns (List (EntityRow F)))
  apply_multifeedback_state user_ids video_ids author_ids s = do
    require (video_ids.size == user_ids.size && author_ids.size == user_ids.size)
    emit_rows
        (λ current history i.
          entity_rows user_ids video_ids author_ids s.prior_strength s.global_means history i
            entity_feedback)
        0 s.history (positions user_ids.size) (λ i. none)
