-- ===== src/Features/CandidateRecency/Earlier.antt =====
-- The features of src/rex/features/candidate_recency.py read the labels of strictly earlier timestamps.
use tiktok_techjam_recsys_ag.Prelude.{
  ℕ, ◌≡◌, ◌<◌, not, ◌||◌, all, any, Option, some, List, [], ◌∷◌, String,
}
use tiktok_techjam_recsys_ag.Data.Arrays.{Array, Columns, Numpy, IsNumpy, IsOrder, require}
use tiktok_techjam_recsys_ag.Features.Numbers.{Floats, members}
use tiktok_techjam_recsys_ag.Features.PointInTime.Returns.{bind_some}
use tiktok_techjam_recsys_ag.Features.TemporalOrder.{strict_timestamp_groups}
use tiktok_techjam_recsys_ag.Features.TemporalOrder.Groups.{Visited, Visited-agree}
use tiktok_techjam_recsys_ag.Features.CandidateRecency.{
  RecencyHistory, RecencyRow, no_recency, validate_inputs, learn_recency, emit_recency,
  candidate_recency_features,
}

module _ {F : Type 0} (floats : Floats F) (np : Numpy String) (laws : IsNumpy np)
    (user_ids video_ids author_ids : Array String) (times : Array ℕ) (keys : Array String)
    (half_lives : List F) (prior_strength candidate_half_life : F) where
  abbrev features : Array F → Option (Columns (RecencyRow F))
  features labels =
      candidate_recency_features floats np user_ids video_ids author_ids times keys labels
        half_lives prior_strength candidate_half_life

  abbrev learn : Array F → ℕ → RecencyHistory F → ℕ → Option (RecencyHistory F)
  learn = learn_recency floats user_ids video_ids author_ids times half_lives candidate_half_life

  abbrev emit_row : ℕ → RecencyHistory F → ℕ → Option (RecencyRow F)
  emit_row =
      emit_recency floats user_ids video_ids author_ids times prior_strength half_lives
        candidate_half_life

  -- The loop over the groups, of features that were returned.
  visited :
      (labels : Array F) {columns : Columns (RecencyRow F)}
      → features labels ≡ some columns
      → Visited np laws times keys
          (learn labels)
          (learn labels)
          emit_row
          (no_recency floats)
          (learn labels)
          columns
  unfolding candidate_recency_features
  visited labels h =
      let (_, _, h') =
        bind_some
          (require (
            validate_inputs floats user_ids.size
              (video_ids.size ∷ author_ids.size ∷ times.size ∷ keys.size ∷ labels.size ∷ [])))
          _ h in
      let (_, _, h'') =
        bind_some
          (require (
            not (
              floats.is_nonpositive prior_strength
              || any (λ x. floats.is_nonpositive x) half_lives)))
          _ h' in
      let (_, _, h''') =
        bind_some (require (all (λ x. floats.is_finite x) (members labels))) _ h'' in
      bind_some (strict_timestamp_groups np times keys) _ h'''

  -- Where lexsort orders the rows by time: when candidate_recency_features returns for two arrays
  -- of labels that agree on all rows of strictly earlier timestamps than a row, it gives that row
  -- the same features.
  pub candidate_recency-Earlier :
      (labels labels' : Array F) {columns columns' : Columns (RecencyRow F)}
      → IsOrder times (np.lexsort keys times)
      → features labels ≡ some columns
      → features labels' ≡ some columns'
      → (i : ℕ) → i < times.size
      → ((j : ℕ) → times.at j < times.at i → labels.at j ≡ labels'.at j)
      → columns i ≡ columns' i
  candidate_recency-Earlier labels labels' sorted h h' i l same =
      Visited-agree np laws times keys (learn labels) (learn labels') emit_row (no_recency floats)
        sorted (visited labels h) (visited labels' h') i l (λ c s j before. rw (same j before))
