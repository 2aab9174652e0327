-- ===== src/Submission/Calls.antt =====
-- The transactions of src/rex/submission/repository.py as the calls of a history. A transaction that
-- raises is rolled back, and the calls of several processes interleave transaction by transaction.
pub mod Trail
pub mod Replayed
pub mod Accepted
pub mod Aside
pub mod Claims
pub mod Delivery
use tiktok_techjam_recsys_ag.Prelude.{ℕ, String, Option, List, [], ◌∷◌}
use tiktok_techjam_recsys_ag.Prelude.Int.{ℤ}
use tiktok_techjam_recsys_ag.Result.{Result, ok, err, ◌>>=◌}
use tiktok_techjam_recsys_ag.Store.Documents.{Fields}
use tiktok_techjam_recsys_ag.Submission.States.{SubmissionState}
use tiktok_techjam_recsys_ag.Submission.Schema.{SourceLocator, SubmissionDb}
use tiktok_techjam_recsys_ag.Submission.Jobs.{Host, create_job, transition, terminate}
use tiktok_techjam_recsys_ag.Submission.Checks.{CheckRun, record_check}
use tiktok_techjam_recsys_ag.Submission.Handoffs.{claim_handoff, finish_handoff}

pub data Transaction : Type 0 where
  creation : SourceLocator → Transaction
  move :
      String
      → SubmissionState
      → SubmissionState
      → Fields
      → List (String × Option String)
      → Transaction
  termination : String → SubmissionState → String → String → Transaction
  check : String → ℤ → CheckRun → Transaction
  claim : String → String → String → Transaction
  finish : String → String → Transaction

abbrev tables : {A : Type 0} → Result (SubmissionDb × A) → Result SubmissionDb
tables m = m >>= λ moved. ok moved.0

unfoldable pub run : Host → Transaction → SubmissionDb → Result SubmissionDb
run host (Transaction.creation source) db = tables (create_job host source db)
run host (Transaction.move id expected target evidence updates) db =
    tables (transition host id expected target evidence updates db)
run host (Transaction.termination id target code summary) db =
    tables (terminate host id target code summary db)
run host (Transaction.check id ordinal checked) db = record_check host id ordinal checked db
run host (Transaction.claim id seal target) db = claim_handoff host id seal target db
run host (Transaction.finish id manifest) db = finish_handoff host id manifest db

-- `transaction`: COMMIT, or ROLLBACK when the statements raise.
unfoldable pub commit : Host → Transaction → SubmissionDb → SubmissionDb
commit host t db = elim (run host t db) [ ok db' ↦ db' | err _ ↦ db ]

-- Transactions, each at its own time.
unfoldable pub commits : Host → List (ℕ × Transaction) → SubmissionDb → SubmissionDb
commits host [] db = db
commits host ((instant, t) ∷ rest) db =
    commits host rest (commit (record host { now = instant }) t db)

abbrev pub empty : SubmissionDb
empty = record {
  submission_jobs = [];
  submission_transitions = [];
  submission_checks = [];
  submission_handoffs = [];
}
