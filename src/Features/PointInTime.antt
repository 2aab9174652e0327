-- ===== src/Features/PointInTime.antt =====
-- The loop that the feature builders of src/rex/features share: over the batches of rows of one time, it
-- writes a row of features for each row of a batch, and only then learns from the rows of the batch.
pub mod Before
pub mod History
pub mod Returns
use tiktok_techjam_recsys_ag.Prelude.{ℕ, Option, none, some, List, [], ◌∷◌}
use tiktok_techjam_recsys_ag.Data.Arrays.{Columns, write, ◌>>=◌}

module _ {S Row : Type 0} (emit : ℕ → S → ℕ → Option Row) where
  -- `for index in batch: column[index] = …`
  unfoldable pub emit_rows : ℕ → S → List ℕ → Columns Row → Option (Columns Row)
  emit_rows current state [] columns = some columns
  emit_rows current state (i ∷ batch) columns = do
    row ← emit current state i
    emit_rows current state batch (write i row columns)

module _ {S : Type 0} (time : ℕ → ℕ) (learn : ℕ → S → ℕ → Option S) where
  -- `for index in batch: …` on the history
  unfoldable pub learn_rows : ℕ → S → List ℕ → Option S
  learn_rows current state [] = some state
  learn_rows current state (i ∷ batch) = do
    state' ← learn current state i
    learn_rows current state' batch

  -- `for batch in batches` where only the history is kept; the time of a batch is that of its first row.
  -- No batch is empty.
  unfoldable pub learn_batches : List (List ℕ) → S → Option S
  learn_batches [] state = some state
  learn_batches ([] ∷ batches) state = learn_batches batches state
  learn_batches ((first ∷ batch) ∷ batches) state = do
    state' ← learn_rows (time first) state (first ∷ batch)
    learn_batches batches state'

  -- `for batch in batches`
  unfoldable pub visit :
      {Row : Type 0}
      → (ℕ → S → ℕ → Option Row)
      → List (List ℕ)
      → S
      → Columns Row
      → Option (Columns Row)
  visit emit [] state columns = some columns
  visit emit ([] ∷ batches) state columns = visit emit batches state columns
  visit emit ((first ∷ batch) ∷ batches) state columns = do
    columns' ← emit_rows emit (time first) state (first ∷ batch) columns
    state' ← learn_rows (time first) state (first ∷ batch)
    visit emit batches state' columns'
