-- ===== src/Control/Budget/Rounding.antt =====
-- How far `metric_units` is from the metric that it stands for.
use native.Mathlib.Nat.{pow-suc}
use tiktok_techjam_recsys_ag.Prelude.{ℕ, zero, suc, ◌+◌, ◌*◌, ◌/◌, ◌^◌, ◌≤◌, ◌<◌, ◌≡◌, arith}
use tiktok_techjam_recsys_ag.Prelude.Int.{pos, negsuc, pos_part, neg_part, ◌-ℤ◌}
use tiktok_techjam_recsys_ag.Prelude.Decimal.{Float}
use tiktok_techjam_recsys_ag.Control.Budget.{scale, negate, round_half_up, metric_units}

quotient_bounds : (n d : ℕ) → 0 < d → (n / d * d ≤ n) × (n < n / d * d + d)
quotient_bounds n d h = grind arith

-- A stored number of units, as a multiple of the unit, is off from the exact one by at most half a
-- unit, and by less than that where it is below.
abbrev pub Near : ℕ → ℕ → ℕ → Type 0
Near unit exact stored = (2 * stored ≤ 2 * exact + unit) × (2 * exact < 2 * stored + unit)

round_half_up-Near : (num den : ℕ) → 0 < den → Near den num (round_half_up num den * den)
unfolding round_half_up
round_half_up-Near num den h =
    let q = quotient_bounds (2 * num + den) (2 * den) (omega arith) in
    (omega (arith, q), omega (arith, q))

power_pos : (p : ℕ) → 0 < 10 ^ p
power_pos zero = omega arith
power_pos (suc p) = rw pow-suc (omega (arith, power_pos p))

negate-pos_part : (n : ℕ) → pos_part (negate n) ≡ 0
unfolding ◌-ℤ◌
negate-pos_part n = ground arith

negate-neg_part : (n : ℕ) → neg_part (negate n) ≡ n
unfolding ◌-ℤ◌
negate-neg_part n = ground arith

Near-zero : (unit factor : ℕ) → 0 < unit → Near unit (0 * factor) (0 * unit)
Near-zero unit factor h = (omega arith, omega arith)

-- The stored number has the sign of the metric, and its distance from the metric in billionths is at
-- most half a unit, where half a unit is rounded away from zero.
pub metric_units_error :
    (x : Float)
    → let unit = 10 ^ x.places in
      Near unit (pos_part x.mantissa * scale) (pos_part (metric_units x) * unit)
      × Near unit (neg_part x.mantissa * scale) (neg_part (metric_units x) * unit)
unfolding metric_units
metric_units_error x =
    elim x.mantissa
      as (λ m.
        let unit = 10 ^ x.places in
        let u = metric_units (record { mantissa = m; places = x.places }) in
        Near unit (pos_part m * scale) (pos_part u * unit)
        × Near unit (neg_part m * scale) (neg_part u * unit)) [
          | pos n ↦ (
            round_half_up-Near (n * scale) (10 ^ x.places) (power_pos x.places),
            Near-zero (10 ^ x.places) scale (power_pos x.places),
          )
          | negsuc n ↦
              let r = round_half_up (suc n * scale) (10 ^ x.places) in
              rw (negate-pos_part r, negate-neg_part r)
                (
                  Near-zero (10 ^ x.places) scale (power_pos x.places),
                  round_half_up-Near (suc n * scale) (10 ^ x.places) (power_pos x.places),
                )
        ]
