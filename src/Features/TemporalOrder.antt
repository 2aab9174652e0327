-- ===== src/Features/TemporalOrder.antt =====
-- src/rex/features/temporal_order.py: groups of rows of one timestamp, elapsed days, and decay. Times are
-- natural numbers of milliseconds, so none is negative.
pub mod Groups
use tiktok_techjam_recsys_ag.Prelude.{
  ℕ, suc, not, Option, some, none, List, [], ◌∷◌, String, string_eq, nat_eq, ◌==◌, map,
  count_distinct, if◌then◌else◌,
}
use tiktok_techjam_recsys_ag.Prelude.Int.{pos}
use tiktok_techjam_recsys_ag.Data.Arrays.{Array, Numpy, changes, ◌>>=◌, ◌>>◌, require}
use tiktok_techjam_recsys_ag.Data.Temporal.{is_nonempty}
use tiktok_techjam_recsys_ag.Features.Numbers.{Floats, members, zero, divide}

-- `validate_temporal_keys`
unfoldable pub validate_temporal_keys : Array ℕ → Array String → Option (Unit {0})
validate_temporal_keys times keys = do
  require (keys.size == times.size)
  require (count_distinct (members keys) == times.size)

unfoldable pub strict_timestamp_groups :
    Numpy String → Array ℕ → Array String → Option (List (List ℕ))
strict_timestamp_groups np times keys = do
  validate_temporal_keys times keys
  let order = np.lexsort keys times
  let boundaries = map suc (np.flatnonzero (changes (map times.at order)))
  some (if is_nonempty order then np.split order boundaries else [])

module _ {F : Type 0} (floats : Floats F) where
  -- MILLISECONDS_PER_DAY
  abbrev pub milliseconds_per_day : F
  milliseconds_per_day = floats.literal (record { mantissa = pos 86400000; places = 0 })

  -- `max(0.0, x)`: the second only when it is greater.
  unfoldable pub elapsed_days : ℕ → ℕ → F
  elapsed_days later earlier =
      let days =
        floats.over (floats.minus (floats.whole later) (floats.whole earlier))
          milliseconds_per_day in
      if floats.less (zero floats) days then days else zero floats

  unfoldable pub exponential_decay : ℕ → ℕ → F → Option F
  exponential_decay later earlier half_life = do
    require (not (floats.is_nonpositive half_life))
    exponent ← divide floats (elapsed_days later earlier) half_life
    some (floats.half_to exponent)
