-- ===== src/Features/Dated.antt =====
-- The loop of the feature builders over the batches by date: each row has the features that the history
-- after the rows of strictly earlier dates gives.
use tiktok_techjam_recsys_ag.Prelude.{ℕ, ◌≡◌, ◌<◌, ◌∙◌, sym, Option, some, List}
use tiktok_techjam_recsys_ag.Data.Arrays.{Array, Columns, Numpy, IsNumpy, IsOrder, ◌>>=◌}
use tiktok_techjam_recsys_ag.Data.Orders.{order-Mem}
use tiktok_techjam_recsys_ag.Data.Temporal.{date_batches}
use tiktok_techjam_recsys_ag.Data.Temporal.Batches.{date_batches-Cuts}
use tiktok_techjam_recsys_ag.Features.PointInTime.{visit}
use tiktok_techjam_recsys_ag.Features.PointInTime.History.{learned, visit-Cuts}
use tiktok_techjam_recsys_ag.Features.PointInTime.Before.{earlier}
use tiktok_techjam_recsys_ag.Features.Tallies.{fold_rows, learned-fold}

module _ {Key : Type 0} (np : Numpy Key) (dates : Array ℕ) (row_ids : Array Key) where
  -- The rows of strictly earlier dates than a row, in the order of the sort.
  abbrev pub rows_before : ℕ → List ℕ
  rows_before i = earlier dates.at (dates.at i) (np.lexsort row_ids dates)

  module _ {S Row : Type 0} (learn : ℕ → S → ℕ → Option S) (emit : ℕ → S → ℕ → Option Row) where
    pub visit-dated :
        IsNumpy np
        → IsOrder dates (np.lexsort row_ids dates)
        → (s : S) (initial : Columns Row) {columns : Columns Row}
        → visit dates.at learn emit (date_batches np dates row_ids) s initial ≡ some columns
        → (i : ℕ) → i < dates.size
        → (row : Row) × (columns i ≡ some row)
          × ((learned dates.at learn (rows_before i) s >>= λ before. emit (dates.at i) before i)
              ≡ some row)
    visit-dated laws sorted s initial run i l =
        visit-Cuts dates.at learn emit (np.lexsort row_ids dates) (date_batches np dates row_ids) s
          initial i (date_batches-Cuts np laws dates row_ids sorted) run
          (order-Mem dates (np.lexsort row_ids dates) i sorted l)

  module _ {S Row : Type 0} (update : S → ℕ → S) (emit : ℕ → S → ℕ → Option Row) where
    pub visit-folded_row :
        IsNumpy np
        → IsOrder dates (np.lexsort row_ids dates)
        → (s : S) (initial : Columns Row) {columns : Columns Row}
        → visit dates.at
            (λ t s' j. some (update s' j))
            emit
            (date_batches np dates row_ids)
            s
            initial
          ≡ some columns
        → (i : ℕ) → i < dates.size
        → (row : Row) × (columns i ≡ some row)
          × (emit (dates.at i) (fold_rows update s (rows_before i)) i ≡ some row)
    visit-folded_row laws sorted s initial run i l =
        let (row, w, r) =
          visit-dated (λ t s' j. some (update s' j)) emit laws sorted s initial run i l in
        (row, w, rw (learned-fold dates.at update (rows_before i) s) at r)

    pub visit-folded :
        IsNumpy np
        → IsOrder dates (np.lexsort row_ids dates)
        → (s : S) (initial : Columns Row) {columns : Columns Row}
        → visit dates.at
            (λ t s' j. some (update s' j))
            emit
            (date_batches np dates row_ids)
            s
            initial
          ≡ some columns
        → (i : ℕ) → i < dates.size
        → columns i ≡ emit (dates.at i) (fold_rows update s (rows_before i)) i
    visit-folded laws sorted s initial run i l =
        let (row, w, r) = visit-folded_row laws sorted s initial run i l in w ∙ sym r
