-- ===== src/Features/RepeatExposure/Alike.antt =====
-- Histories of src/rex/features/repeat_exposure.py that differ in the order of their rows alone.
use mathlib.Core.List.{Permᴰ, append-nil}
use mathlib.Core.Option.{some-injective}
use tiktok_techjam_recsys_ag.Prelude.{
  ℕ, ◌+◌, ◌≡◌, ◌≤◌, ◌<◌, refl, sym, ap, ◌∙◌, some, List, [], ◌∷◌, ◌++◌, String, string_eq, nat_eq,
  arith,
}
use tiktok_techjam_recsys_ag.Prelude.Int.{pos, ◌+ℤ◌, +ℤ_swap}
use tiktok_techjam_recsys_ag.Prelude.Table.{get}
use tiktok_techjam_recsys_ag.Data.Arrays.{Array, IsChronological, positions, positions_from}
use tiktok_techjam_recsys_ag.Data.Orders.{positions-append, All-positions}
use tiktok_techjam_recsys_ag.Features.Numbers.{Floats, pair_eq}
use tiktok_techjam_recsys_ag.Data.Arrays.{value_or}
use tiktok_techjam_recsys_ag.Features.PointInTime.Before.{earlier, earlier-All, earlier-none}
use tiktok_techjam_recsys_ag.Features.PointInTime.Returns.{bind_some}
use tiktok_techjam_recsys_ag.Features.Tallies.{
  fold_rows, tally_row, stamp_row, value-tally_perm, get-stamp_perm,
}
use tiktok_techjam_recsys_ag.Features.RepeatExposure.{
  Exposures, ExposureRow, no_exposures, add_exposure, emit_exposure, days_after, pair_at, minus_one,
}

-- Of the positions of a day and before it, the earlier ones are the first.
pub earlier-positions :
    (time : ℕ → ℕ) (day n r : ℕ)
    → ((j : ℕ) → j < n → time j < day)
    → ((j : ℕ) → n ≤ j → j < n + r → time j ≡ day)
    → earlier time day (positions (n + r)) ≡ positions n
earlier-positions time day n r before same =
    ap (earlier time day) (positions-append 0 n r)
    ∙ earlier-All time day (positions n) (positions_from (0 + n) r)
        (All-positions _ 0 n (λ j _ l. before j (omega (arith, l))))
    ∙ ap (λ js. positions n ++ js)
        (earlier-none time day (positions_from (0 + n) r) (
          All-positions _ (0 + n) r
            (λ j a b. omega (arith, same j (omega (arith, a)) (omega (arith, b))))))
    ∙ append-nil (positions n)

module _ {F : Type 0} (floats : Floats F) (user_ids video_ids : Array String) (dates : Array ℕ)
    (labels : Array F) where
  abbrev add : Exposures F → ℕ → Exposures F
  add = add_exposure floats user_ids video_ids dates labels

  abbrev key : ℕ → String × String
  key = pair_at floats user_ids video_ids dates

  counts-fold :
      (s : Exposures F) (js : List ℕ)
      → (fold_rows add s js).counts ≡ fold_rows (tally_row key 0 (λ c j. c + 1)) s.counts js
  unfolding fold_rows
  counts-fold s [] = refl
  counts-fold s (j ∷ js) = counts-fold (add s j) js

  positives-fold :
      (s : Exposures F) (js : List ℕ)
      → (fold_rows add s js).positives
        ≡ fold_rows
            (tally_row key (pos 0) (λ p j. p +ℤ floats.integer (labels.at j)))
            s.positives
            js
  unfolding fold_rows
  positives-fold s [] = refl
  positives-fold s (j ∷ js) = positives-fold (add s j) js

  dates-fold :
      (s : Exposures F) (js : List ℕ)
      → (fold_rows add s js).last_date ≡ fold_rows (stamp_row key dates.at) s.last_date js
  unfolding fold_rows
  dates-fold s [] = refl
  dates-fold s (j ∷ js) = dates-fold (add s j) js

  -- Two histories that give a pair the same counts and the same last date.
  abbrev pub Alike : String × String → Exposures F → Exposures F → Type 0
  Alike q s s' =
      (value_or 0 (get q s.counts) ≡ value_or 0 (get q s'.counts))
      × (value_or (pos 0) (get q s.positives) ≡ value_or (pos 0) (get q s'.positives))
      × (get q s.last_date ≡ get q s'.last_date)

  pub alike :
      (q : String × String) {xs ys : List ℕ}
      → IsChronological dates.at xs
      → IsChronological dates.at ys
      → Permᴰ xs ys
      → Alike q (fold_rows add no_exposures xs) (fold_rows add no_exposures ys)
  alike q {xs} {ys} c d p = (
    rw (counts-fold no_exposures xs, counts-fold no_exposures ys)
        (value-tally_perm key 0 (λ n j. n + 1) (λ v a b. refl) q p),
    rw (positives-fold no_exposures xs, positives-fold no_exposures ys)
        (value-tally_perm key (pos 0) (λ v j. v +ℤ floats.integer (labels.at j))
          (λ v a b. +ℤ_swap v (floats.integer (labels.at a)) (floats.integer (labels.at b))) q p),
    rw (dates-fold no_exposures xs, dates-fold no_exposures ys)
        (get-stamp_perm key dates.at q c d p),
  )

-- The rows agree but for the last outcome.
abbrev pub SameHistory : {F : Type 0} → ExposureRow F → ExposureRow F → Type 0
SameHistory row row' =
    (row.prior_count ≡ row'.prior_count)
    × (row.prior_positive ≡ row'.prior_positive)
    × (row.days_since ≡ row'.days_since)

module _ {F : Type 0} (floats : Floats F) (user_ids video_ids : Array String)
    (dates : Array ℕ) where
  -- Where two histories agree on a pair, a row of one has its like in the other.
  pub served_row :
      (labels : Array F) (t t' : ℕ) (s s' : Exposures F) (i : ℕ) {row : ExposureRow F}
      → Alike floats user_ids video_ids dates labels
          (pair_at floats user_ids video_ids dates i)
          s
          s'
      → emit_exposure floats user_ids video_ids dates t s i ≡ some row
      → (row' : ExposureRow F) × (emit_exposure floats user_ids video_ids dates t' s' i ≡ some row')
        × SameHistory row row'
  served_row labels t t' s s' i (c, p, l) h =
      let (days, e, r) =
        bind_some
          (days_after floats (dates.at i)
            (get (pair_at floats user_ids video_ids dates i) s.last_date))
          _ h in
      let r' = some-injective _ _ r in
      let q = pair_at floats user_ids video_ids dates i in
      (
        record {
          prior_count = value_or 0 (get q s'.counts);
          prior_positive = value_or (pos 0) (get q s'.positives);
          prior_last = value_or (minus_one floats) (get q s'.last_outcome);
          days_since = days;
        },
        rw (sym l, e) refl,
        (
          sym (ap (λ x. x.prior_count) r') ∙ c,
          sym (ap (λ x. x.prior_positive) r') ∙ p,
          sym (ap (λ x. x.days_since) r'),
        ),
      )
