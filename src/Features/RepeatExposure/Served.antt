-- ===== src/Features/RepeatExposure/Served.antt =====
-- The frozen state of src/rex/features/repeat_exposure.py serves later rows what the builder gives them.
use mathlib.Core.List.{Permᴰ}
use mathlib.Core.Path.{subst}
use tiktok_techjam_recsys_ag.Data.Temporal.{date_batches}
use tiktok_techjam_recsys_ag.Features.PointInTime.{visit}
use tiktok_techjam_recsys_ag.Prelude.{
  ℕ, ◌+◌, ◌-◌, ◌≡◌, ◌≤◌, ◌<◌, refl, sym, ap, ◌∙◌, inl, Bool, true, false, ◌&&◌, Option, some,
  String, string_eq, nat_eq, ◌==◌, ltb, arith,
}
use tiktok_techjam_recsys_ag.Data.Arrays.{
  Array, Columns, Numpy, IsNumpy, IsOrder, positions, require,
}
use tiktok_techjam_recsys_ag.Data.Orders.{
  first, others, All-positions, perm_both, perm_filter, positions-Mem,
}
use tiktok_techjam_recsys_ag.Features.Numbers.{Floats, pair_eq}
use tiktok_techjam_recsys_ag.Features.PointInTime.History.{emit_rows_writes}
use tiktok_techjam_recsys_ag.Features.PointInTime.Before.{earlier}
use tiktok_techjam_recsys_ag.Features.PointInTime.Returns.{bind_some, emit_rows-Returns-All}
use tiktok_techjam_recsys_ag.Features.Tallies.{fold_rows, learn_rows-fold, IsChronological-filter}
use tiktok_techjam_recsys_ag.Features.Dated.{visit-folded_row}
use tiktok_techjam_recsys_ag.Features.RepeatExposure.{
  Exposures, ExposureRow, no_exposures, add_exposure, emit_exposure, pair_at, initial_row,
  repeat_exposure_features, fit_repeat_exposure_state, apply_repeat_exposure_state,
}
use tiktok_techjam_recsys_ag.Features.RepeatExposure.Alike.{
  earlier-positions, Alike, alike, SameHistory, served_row,
}

require-true : (b : Bool) {u : Unit {0}} → require b ≡ some u → b ≡ true
require-true true h = refl
require-true false h = cc

same_sizes : (a b c d e : ℕ) → (b == a && c == a && d == a && e == a) ≡ true → (b ≡ a) × (c ≡ a)
same_sizes a b c d e h = ground arith

same_lengths : (a b c n : ℕ) → b ≡ a → c ≡ a → (b - n == a - n && c - n == a - n) ≡ true
same_lengths a b c n h k = ground arith

module _ {F Key : Type 0} (floats : Floats F) (np : Numpy Key) (laws : IsNumpy np)
    (user_ids video_ids : Array String) (dates : Array ℕ) (row_ids : Array Key) (labels : Array F)
    (n r day : ℕ) where
  abbrev features : Option (Columns (ExposureRow F))
  features = repeat_exposure_features floats np user_ids video_ids dates row_ids labels

  abbrev fit : Option (Exposures F)
  fit =
      fit_repeat_exposure_state floats np (first n user_ids) (first n video_ids) (first n dates)
        (first n labels)

  abbrev apply : Exposures F → Option (Columns (ExposureRow F))
  apply =
      apply_repeat_exposure_state floats (others n user_ids) (others n video_ids) (others n dates)

  abbrev pair : ℕ → String × String
  pair = pair_at floats user_ids video_ids dates

  abbrev emit_row : ℕ → Exposures F → ℕ → Option (ExposureRow F)
  emit_row = emit_exposure floats user_ids video_ids dates

  -- What the fit returns.
  abbrev frozen : Exposures F
  frozen =
      fold_rows (add_exposure floats user_ids video_ids dates labels) no_exposures
        (np.argsort (first n dates))

  module _ (size : dates.size ≡ n + r) (before : (j : ℕ) → j < n → dates.at j < day)
      (same : (j : ℕ) → n ≤ j → j < n + r → dates.at j ≡ day)
      (sorted : IsOrder dates (np.lexsort row_ids dates))
      (fitted : IsOrder (first n dates) (np.argsort (first n dates))) where
    same_rows : Permᴰ (earlier dates.at day (np.lexsort row_ids dates)) (np.argsort (first n dates))
    unfolding earlier
    same_rows =
        perm_both
          (subst (Permᴰ (earlier dates.at day (np.lexsort row_ids dates)))
            (ap (λ m. earlier dates.at day (positions m)) size
              ∙ earlier-positions dates.at day n r before same)
            (perm_filter (λ j. ltb (dates.at j) day) sorted.each))
          fitted.each

    Alike-frozen :
        (q : String × String)
        → Alike floats user_ids video_ids dates labels q
            (fold_rows
              (add_exposure floats user_ids video_ids dates labels)
              no_exposures
              (earlier dates.at day (np.lexsort row_ids dates)))
            frozen
    unfolding earlier
    Alike-frozen q =
        alike floats user_ids video_ids dates labels q
          (IsChronological-filter dates.at (λ j. ltb (dates.at j) day) (np.lexsort row_ids dates)
            sorted.chronological)
          fitted.chronological same_rows

    -- A row of the last day, as the builder gives it and as the frozen state does.
    both_rows :
        {columns : Columns (ExposureRow F)}
        → visit dates.at
            (λ t s j. some (add_exposure floats user_ids video_ids dates labels s j))
            emit_row
            (date_batches np dates row_ids)
            no_exposures
            (λ j. some (initial_row floats))
          ≡ some columns
        → (k : ℕ) → k < r
        → (row : ExposureRow F) × (columns (n + k) ≡ some row)
          × (row' : ExposureRow F) × (emit_row 0 frozen (n + k) ≡ some row')
          × SameHistory row row'
    both_rows run k l =
        let (row, w, e) =
          visit-folded_row np dates row_ids (add_exposure floats user_ids video_ids dates labels)
            emit_row laws sorted no_exposures (λ j. some (initial_row floats)) run (n + k)
            (omega (arith, size, l)) in
        let (row', e', alike') =
          served_row floats user_ids video_ids dates labels (dates.at (n + k)) 0 _ frozen (n + k)
            (subst
              (λ d.
                Alike floats user_ids video_ids dates labels (pair (n + k))
                  (fold_rows (add_exposure floats user_ids video_ids dates labels) no_exposures
                    (earlier dates.at d (np.lexsort row_ids dates)))
                  frozen)
              (sym (same (n + k) (omega arith) (omega (arith, l)))) (Alike-frozen (pair (n + k))))
            e in
        (row, w, row', e', alike')

  -- Where lexsort and argsort order the rows by date, the first n rows are of days before a day,
  -- and the others of that day: when repeat_exposure_features returns for all rows, the state that
  -- is fitted on the first n rows and then applied to the others returns as well, and gives each
  -- of them the same count, the same number of positives and the same days since the last
  -- exposure.
  pub repeat_exposure-Served :
      {columns : Columns (ExposureRow F)}
      → dates.size ≡ n + r
      → ((j : ℕ) → j < n → dates.at j < day)
      → ((j : ℕ) → n ≤ j → j < n + r → dates.at j ≡ day)
      → IsOrder dates (np.lexsort row_ids dates)
      → IsOrder (first n dates) (np.argsort (first n dates))
      → features ≡ some columns
      → (state : Exposures F) × (fit ≡ some state)
        × (served : Columns (ExposureRow F)) × (apply state ≡ some served)
        × ((k : ℕ)
            → k < r
            → (row : ExposureRow F) × (columns (n + k) ≡ some row)
              × (row' : ExposureRow F) × (served k ≡ some row')
              × SameHistory row row')
  unfolding repeat_exposure_features fit_repeat_exposure_state apply_repeat_exposure_state
  repeat_exposure-Served size before same sorted fitted h =
      let (u, sizes, run) =
        bind_some
          (require (
            video_ids.size == user_ids.size
            && dates.size == user_ids.size
            && row_ids.size == user_ids.size
            && labels.size == user_ids.size))
          _ h in
      let (sv, sd) =
        same_sizes user_ids.size video_ids.size dates.size row_ids.size labels.size
          (require-true _ sizes) in
      let rows = both_rows size before same sorted fitted run in
      let count : user_ids.size - n ≡ r = omega (arith, size, sd) in
      let (served, a) =
        emit_rows-Returns-All (λ t s k. emit_row t s (n + k)) 0 frozen
          (positions (user_ids.size - n)) (λ j. some (initial_row floats))
          (All-positions _ 0 (user_ids.size - n)
            (λ k _ l. let (_, _, row', e, _) = rows k (omega (arith, l, count)) in (row', e))) in
      (
        frozen,
        learn_rows-fold dates.at (add_exposure floats user_ids video_ids dates labels) 0
            no_exposures (np.argsort (first n dates)),
        served,
        rw (same_lengths user_ids.size video_ids.size dates.size n sv sd) a,
        λ k l.
            let (row, w, row', e, alike') = rows k l in
            let (row'', e', w') =
              emit_rows_writes (λ t s j. emit_row t s (n + j)) 0 frozen k
                (positions (user_ids.size - n)) (λ j. some (initial_row floats)) a
                (inl (
                  positions-Mem 0 (user_ids.size - n) k (omega arith) (omega (arith, l, count)))) in
            (row, w, row', w' ∙ sym e' ∙ e, alike'),
      )
