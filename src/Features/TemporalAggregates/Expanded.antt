-- ===== src/Features/TemporalAggregates/Expanded.antt =====
-- What `expanding_target_rate` of src/rex/features/temporal_aggregates.py computes: sums over the rows of
-- strictly earlier dates, in the order of the sort.
use tiktok_techjam_recsys_ag.Prelude.{
  ℕ, ◌+◌, ◌≡◌, ◌<◌, refl, ◌∙◌, true, false, ◌&&◌, Option, none, some, List, [], ◌∷◌, String,
  string_eq, nat_eq, ◌==◌, length, arith,
}
use tiktok_techjam_recsys_ag.Prelude.Table.{get}
use tiktok_techjam_recsys_ag.Data.Arrays.{Array, Columns, Numpy, IsNumpy, IsOrder}
use tiktok_techjam_recsys_ag.Data.Temporal.{date_batches}
use tiktok_techjam_recsys_ag.Features.Numbers.{Floats, zero}
use tiktok_techjam_recsys_ag.Data.Arrays.{value_or}
use tiktok_techjam_recsys_ag.Features.Dated.{rows_before, visit-folded}
use tiktok_techjam_recsys_ag.Features.PointInTime.Returns.{Returns, visit-Returns}
use tiktok_techjam_recsys_ag.Features.Tallies.{own, fold_rows, tally_row, value-tally, count-length}
use tiktok_techjam_recsys_ag.Features.TemporalAggregates.{
  Rates, RateRow, no_rates, add_label, emit_rate, prior_mean, expanding_target_rate,
}

module _ {F : Type 0} (floats : Floats F) (keys : Array String) (labels : Array F) where
  -- The sum of the labels of some rows, from the first to the last.
  unfoldable pub label_sum : F → List ℕ → F
  label_sum = fold_rows (λ v j. floats.plus v (labels.at j))

  -- The rate and the count of a row, by sums over the rows before it.
  abbrev pub expanded_row : F → List ℕ → ℕ → RateRow F
  expanded_row prior_strength before i =
      let same = own keys.at (keys.at i) before in
      record {
        target_rate = floats.single (
            floats.over
              (floats.plus (label_sum (zero floats) same) (
                floats.times prior_strength
                  (prior_mean floats (label_sum (zero floats) before) (length before))))
              (floats.plus (floats.whole (length same)) prior_strength));
        prior_impressions = length same;
      }

  abbrev add : Rates F → ℕ → Rates F
  add = add_label floats keys labels

  positives-fold :
      (s : Rates F) (js : List ℕ)
      → (fold_rows add s js).positives
        ≡ fold_rows
            (tally_row keys.at (zero floats) (λ v j. floats.plus v (labels.at j)))
            s.positives
            js
  unfolding fold_rows
  positives-fold s [] = refl
  positives-fold s (j ∷ js) = positives-fold (add s j) js

  impressions-fold :
      (s : Rates F) (js : List ℕ)
      → (fold_rows add s js).impressions
        ≡ fold_rows (tally_row keys.at 0 (λ c j. c + 1)) s.impressions js
  unfolding fold_rows
  impressions-fold s [] = refl
  impressions-fold s (j ∷ js) = impressions-fold (add s j) js

  global-fold :
      (s : Rates F) (js : List ℕ)
      → ((fold_rows add s js).global_positive ≡ label_sum s.global_positive js)
        × ((fold_rows add s js).global_count ≡ s.global_count + length js)
  unfolding fold_rows label_sum
  global-fold s [] = (refl, omega arith)
  global-fold s (j ∷ js) = let (p, c) = global-fold (add s j) js in (p, omega (arith, c))

  abbrev after : List ℕ → Rates F
  after before = fold_rows add (no_rates floats) before

  positive-after :
      (before : List ℕ) (k : String)
      → value_or (zero floats) (get k (after before).positives)
        ≡ label_sum (zero floats) (own keys.at k before)
  unfolding label_sum get
  positive-after before k =
      rw (positives-fold (no_rates floats) before)
        (value-tally keys.at (zero floats) (λ v j. floats.plus v (labels.at j)) k [] before)

  count-after :
      (before : List ℕ) (k : String)
      → value_or 0 (get k (after before).impressions) ≡ length (own keys.at k before)
  unfolding get
  count-after before k = rw (impressions-fold (no_rates floats) before) (
      value-tally keys.at 0 (λ c j. c + 1) k [] before
      ∙ omega (arith, count-length 0 (own keys.at k before)))

  total-after : (before : List ℕ) → (after before).global_count ≡ length before
  total-after before = omega (arith, (global-fold (no_rates floats) before).1)

  -- The row that the history after some rows gives.
  emitted :
      (prior_strength : F) (t : ℕ) (before : List ℕ) (i : ℕ)
      → ((n : ℕ) → floats.is_zero (floats.plus (floats.whole n) prior_strength) ≡ false)
      → emit_rate floats keys labels prior_strength t (after before) i
        ≡ some (expanded_row prior_strength before i)
  emitted prior_strength t before i positive =
      rw
        (
          positive-after before (keys.at i),
          count-after before (keys.at i),
          (global-fold (no_rates floats) before).0,
          total-after before,
          positive (length (own keys.at (keys.at i) before)),
        )
        refl

aligned : (a b c d : ℕ) → a ≡ b → b ≡ c → c ≡ d → (a == b && b == c && c == d) ≡ true
aligned a b c d h k l = ground arith

module _ {F Key : Type 0} (floats : Floats F) (np : Numpy Key) (laws : IsNumpy np)
    (keys : Array String) (dates : Array ℕ) (row_ids : Array Key) (labels : Array F)
    (prior_strength : F) where
  abbrev expand : Option (Columns (RateRow F))
  expand = expanding_target_rate floats np keys dates row_ids labels prior_strength

  -- Where lexsort orders the rows by date, the arrays are of one length, and no count and the
  -- prior strength sum to zero: expanding_target_rate returns, and gives each row the number of
  -- rows of its key of strictly earlier dates, and the rate that is made of their labels and of
  -- the mean of all rows of strictly earlier dates.
  pub expanding_target_rate-Expands :
      keys.size ≡ dates.size
      → dates.size ≡ row_ids.size
      → row_ids.size ≡ labels.size
      → ((n : ℕ) → floats.is_zero (floats.plus (floats.whole n) prior_strength) ≡ false)
      → IsOrder dates (np.lexsort row_ids dates)
      → (columns : Columns (RateRow F)) × (expand ≡ some columns)
        × ((i : ℕ)
            → i < dates.size
            → columns i
              ≡ some (
                  expanded_row floats keys labels prior_strength
                    (rows_before np dates row_ids i)
                    i))
  unfolding expanding_target_rate
  expanding_target_rate-Expands k d r positive sorted =
      let (columns, run) =
        visit-Returns dates.at (λ t s i. some (add_label floats keys labels s i))
          (emit_rate floats keys labels prior_strength)
          (λ t s i. (add_label floats keys labels s i, refl)) emits (date_batches np dates row_ids)
          (no_rates floats) (λ i. none) in
      (
        columns,
        rw (aligned keys.size dates.size row_ids.size labels.size k d r) run,
        λ i l.
            visit-folded np dates row_ids (add_label floats keys labels)
              (emit_rate floats keys labels prior_strength) laws sorted (no_rates floats)
              (λ j. none) run i l
            ∙ emitted floats keys labels prior_strength (dates.at i)
                (rows_before np dates row_ids i) i positive,
      )
    where
      emits :
          (t : ℕ) (s : Rates F) (i : ℕ)
          → Returns (emit_rate floats keys labels prior_strength t s i)
      emits t s i = rw (positive (value_or 0 (get (keys.at i) s.impressions))) (_, refl)
