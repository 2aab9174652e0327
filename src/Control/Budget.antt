-- ===== src/Control/Budget.antt =====
-- src/rex/control/budget.py: metric units and the convergence trackers.
pub mod Rounding
use tiktok_techjam_recsys_ag.Prelude.{
  ℕ, suc, ◌+◌, ◌*◌, ◌/◌, ◌^◌, Bool, true, false, ◌&&◌, Option, none, some, String, leb, ◌==◌,
  string_eq, option_eq, if◌then◌else◌,
}
use tiktok_techjam_recsys_ag.Prelude.Int.{ℤ, pos, negsuc, ◌-ℤ◌, ltb_ℤ, max_ℤ}
use tiktok_techjam_recsys_ag.Prelude.Decimal.{Float}

-- SCALE
abbrev pub scale : ℕ
scale = 1000000000

-- `quantize(Decimal("1"), rounding=ROUND_HALF_UP)` of num / den.
unfoldable pub round_half_up : ℕ → ℕ → ℕ
round_half_up num den = (2 * num + den) / (2 * den)

abbrev pub negate : ℕ → ℤ
negate n = pos 0 -ℤ pos n

-- ROUND_HALF_UP rounds a tie away from zero, on either side.
unfoldable pub metric_units : Float → ℤ
unfolding round_half_up ◌-ℤ◌
metric_units value = elim value.mantissa [
  | pos n ↦ pos (round_half_up (n * scale) (10 ^ value.places))
  | negsuc n ↦ negate (round_half_up (suc n * scale) (10 ^ value.places))
]

pub record TrackerUpdate : Type 0 where
  pub best_primary_units : ℤ
  pub is_new_best : Bool
  pub non_improvement_streak : ℕ
  pub converged : Bool
  pub delta_units : ℤ

unfoldable pub update_metric_trackers : Option ℤ → Float → ℕ → ℤ → ℕ → TrackerUpdate
unfolding max_ℤ
update_metric_trackers none candidate_primary previous_streak epsilon_units patience =
    let candidate_units = metric_units candidate_primary in
    record {
      best_primary_units = candidate_units;
      is_new_best = true;
      non_improvement_streak = 0;
      converged = false;
      delta_units = candidate_units;
    }
update_metric_trackers (some previous_best) candidate_primary previous_streak epsilon_units
      patience =
    let candidate_units = metric_units candidate_primary in
    let delta = candidate_units -ℤ previous_best in
    let streak = if ltb_ℤ epsilon_units delta then 0 else previous_streak + 1 in
    record {
      best_primary_units = max_ℤ previous_best candidate_units;
      is_new_best = ltb_ℤ (pos 0) delta;
      non_improvement_streak = streak;
      converged = leb patience streak;
      delta_units = delta;
    }

unfoldable pub scientific_plateau_reached : Option String → ℕ → ℕ → Bool
scientific_plateau_reached stop_reason valid_family_count minimum_valid_families =
    stop_reason == some "epsilon_plateau" && leb minimum_valid_families valid_family_count
