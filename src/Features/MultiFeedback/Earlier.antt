-- ===== src/Features/MultiFeedback/Earlier.antt =====
-- The features of src/rex/features/multifeedback_history.py read the labels of strictly earlier timestamps.
use tiktok_techjam_recsys_ag.Prelude.{ℕ, ◌≡◌, ◌<◌, refl, not, Option, some, List, [], ◌∷◌, String}
use tiktok_techjam_recsys_ag.Prelude.Table.{Table}
use tiktok_techjam_recsys_ag.Data.Arrays.{Array, Columns, Numpy, IsNumpy, IsOrder, require}
use tiktok_techjam_recsys_ag.Features.Numbers.{Floats}
use tiktok_techjam_recsys_ag.Features.PointInTime.Returns.{bind_some}
use tiktok_techjam_recsys_ag.Features.TemporalOrder.{strict_timestamp_groups}
use tiktok_techjam_recsys_ag.Features.TemporalOrder.Groups.{Visited, Visited-agree}
use tiktok_techjam_recsys_ag.Features.MultiFeedback.{
  Entity, Feedback, Key, Labels, FeedbackHistory, EntityRow, no_feedback, validate, label_at,
  add_positives, add_entities, add_global, learn_feedback, emit_feedback,
  multifeedback_history_features, entity_feedback, required,
}

module _ {F : Type 0} (floats : Floats F) (user_ids video_ids author_ids : Array String)
    (feedback feedback' : Labels F) (i : ℕ) where
  -- The labels of a row are the same.
  abbrev pub SameLabels : Type 0
  SameLabels =
      (name : Feedback)
      → label_at floats user_ids video_ids author_ids feedback name i
        ≡ label_at floats user_ids video_ids author_ids feedback' name i

  positives-agree :
      (entity : Entity) (names : List Feedback) (t : Table (Entity × Feedback × Key) F)
      → SameLabels
      → add_positives floats user_ids video_ids author_ids feedback entity i names t
        ≡ add_positives floats user_ids video_ids author_ids feedback' entity i names t
  unfolding add_positives
  positives-agree entity [] t same = refl
  positives-agree entity (name ∷ names) t same =
      rw (same name) (positives-agree entity names _ same)

  entities-agree :
      (entities : List (Entity × List Feedback)) (s : FeedbackHistory F)
      → SameLabels
      → add_entities floats user_ids video_ids author_ids feedback i entities s
        ≡ add_entities floats user_ids video_ids author_ids feedback' i entities s
  unfolding add_entities
  entities-agree [] s same = refl
  entities-agree ((entity, names) ∷ entities) s same =
      rw (positives-agree entity names s.positives same) (entities-agree entities _ same)

  global-agree :
      (names : List Feedback) (t : Table Feedback F)
      → SameLabels
      → add_global floats user_ids video_ids author_ids feedback i names t
        ≡ add_global floats user_ids video_ids author_ids feedback' i names t
  unfolding add_global
  global-agree [] t same = refl
  global-agree (name ∷ names) t same = rw (same name) (global-agree names _ same)

module _ {F : Type 0} (floats : Floats F) (np : Numpy String) (laws : IsNumpy np)
    (user_ids video_ids author_ids : Array String) (times : Array ℕ) (keys : Array String)
    (prior_strength : F) where
  abbrev features : Labels F → Option (Columns (List (EntityRow F)))
  features feedback =
      multifeedback_history_features floats np user_ids video_ids author_ids times keys feedback
        prior_strength

  abbrev learn : Labels F → ℕ → FeedbackHistory F → ℕ → Option (FeedbackHistory F)
  learn feedback = learn_feedback floats user_ids video_ids author_ids feedback

  -- The groups, and the loop over them, of features that were returned.
  visited :
      (feedback : Labels F) {columns : Columns (List (EntityRow F))}
      → features feedback ≡ some columns
      → Visited np laws times keys
          (learn feedback)
          (learn feedback)
          (emit_feedback floats user_ids video_ids author_ids prior_strength)
          (no_feedback floats)
          (learn feedback)
          columns
  unfolding multifeedback_history_features
  visited feedback h =
      let (_, _, h') =
        bind_some (validate floats user_ids video_ids author_ids times keys feedback) _ h in
      let (_, _, h'') = bind_some (require (not (floats.is_nonpositive prior_strength))) _ h' in
      bind_some (strict_timestamp_groups np times keys) _ h''

  -- Where lexsort orders the rows by time: when multifeedback_history_features returns for two
  -- sets of labels that agree, in every channel, on all rows of strictly earlier timestamps than a
  -- row, it gives that row the same features.
  pub multifeedback-Earlier :
      (feedback feedback' : Labels F) {columns columns' : Columns (List (EntityRow F))}
      → IsOrder times (np.lexsort keys times)
      → features feedback ≡ some columns
      → features feedback' ≡ some columns'
      → (i : ℕ) → i < times.size
      → ((j : ℕ)
          → times.at j < times.at i
          → SameLabels floats user_ids video_ids author_ids feedback feedback' j)
      → columns i ≡ columns' i
  multifeedback-Earlier feedback feedback' sorted h h' i l same =
      Visited-agree np laws times keys (learn feedback) (learn feedback')
        (emit_feedback floats user_ids video_ids author_ids prior_strength) (no_feedback floats)
        sorted (visited feedback h) (visited feedback' h') i l
        (λ c s j before. agree s j (same j before))
    where
      agree :
          (s : FeedbackHistory F) (j : ℕ)
          → SameLabels floats user_ids video_ids author_ids feedback feedback' j
          → learn_feedback floats user_ids video_ids author_ids feedback 0 s j
            ≡ learn_feedback floats user_ids video_ids author_ids feedback' 0 s j
      agree s j e = rw (
        entities-agree floats user_ids video_ids author_ids feedback feedback' j entity_feedback s
            e,
        global-agree floats user_ids video_ids author_ids feedback feedback' j required _ e,
      )
