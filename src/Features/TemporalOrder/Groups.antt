-- ===== src/Features/TemporalOrder/Groups.antt =====
-- The groups of src/rex/features/temporal_order.py are the rows in the order of their times, cut between
-- different times.
use tiktok_techjam_recsys_ag.Prelude.{
  ℕ, ◌≡◌, ◌<◌, refl, List, [], ◌∷◌, Option, some, none, map, suc, String, if◌then◌else◌, ◌∙◌, sym,
}
use tiktok_techjam_recsys_ag.Data.Arrays.{
  Array, Columns, Numpy, IsNumpy, IsOrder, IsChronological, changes,
}
use tiktok_techjam_recsys_ag.Data.Temporal.{is_nonempty}
use tiktok_techjam_recsys_ag.Data.Temporal.Batches.{Cuts, split_cuts}
use tiktok_techjam_recsys_ag.Features.TemporalOrder.{
  strict_timestamp_groups, validate_temporal_keys,
}
use tiktok_techjam_recsys_ag.Features.PointInTime.Returns.{bind_some}
use tiktok_techjam_recsys_ag.Data.Orders.{order-Mem}
use tiktok_techjam_recsys_ag.Features.PointInTime.{visit}
use tiktok_techjam_recsys_ag.Features.PointInTime.History.{AgreeBefore, visit-agree}
use mathlib.Core.Path.{subst}
use mathlib.Core.Option.{some-injective}

module _ (np : Numpy String) (laws : IsNumpy np) (times : Array ℕ) (keys : Array String) where
  pub groups-Cuts :
      {groups : List (List ℕ)}
      → IsOrder times (np.lexsort keys times)
      → strict_timestamp_groups np times keys ≡ some groups
      → Cuts times.at (np.lexsort keys times) groups
  unfolding strict_timestamp_groups
  groups-Cuts {groups} sorted h =
      let (_, _, e) = bind_some (validate_temporal_keys times keys) _ h in
      subst (Cuts times.at (np.lexsort keys times)) (some-injective _ _ e)
        (cases (np.lexsort keys times) sorted.chronological)
    where
      cases :
          (order : List ℕ)
          → IsChronological times.at order
          → Cuts times.at order (
              if is_nonempty order
              then np.split order (map suc (np.flatnonzero (changes (map times.at order))))
              else [])
      cases [] c = (refl, tt)
      cases (x ∷ xs) c = (split_cuts np laws times.at x xs c).1

  -- The loop over the groups returns these columns.
  module _ {S Row : Type 0} (learn learn' : ℕ → S → ℕ → Option S) (emit : ℕ → S → ℕ → Option Row)
      (state : S) where
    abbrev pub Visited : (ℕ → S → ℕ → Option S) → Columns Row → Type 0
    Visited learning columns =
        (groups : List (List ℕ)) × (strict_timestamp_groups np times keys ≡ some groups)
        × (visit times.at learning emit groups state (λ i. none) ≡ some columns)

    -- Learners that agree on the rows of strictly earlier times give a row the same features.
    pub Visited-agree :
        {columns columns' : Columns Row}
        → IsOrder times (np.lexsort keys times)
        → Visited learn columns
        → Visited learn' columns'
        → (i : ℕ) → i < times.size
        → AgreeBefore times.at learn learn' emit (times.at i)
        → columns i ≡ columns' i
    Visited-agree {columns' = columns'} sorted (groups, g, run) (groups', g', run') i l agree =
        visit-agree times.at learn learn' emit (np.lexsort keys times) groups state (λ j. none) i
          (groups-Cuts sorted g) run
          (subst (λ gs. visit times.at learn' emit gs state (λ j. none) ≡ some columns')
            (some-injective _ _ (sym g' ∙ g)) run')
          (order-Mem times (np.lexsort keys times) i sorted l) agree
