-- ===== src/Submission/Handoffs.antt =====
-- src/rex/submission/repository.py: `authorize_handoff`, `get_handoff` and `complete_handoff`. Each is a
-- sequence of transactions; what one of them wrote stays when a later one raises.
-- A target path is a resolved text.
use tiktok_techjam_recsys_ag.Prelude.{
  Bool, not, ◌&&◌, none, some, [], String, ◌==◌, string_eq, option_eq, any, is_some, if◌then◌else◌,
}
use tiktok_techjam_recsys_ag.Prelude.Table.{get, put, rows}
use tiktok_techjam_recsys_ag.Result.{
  Result, ok, err, repository_error, ◌>>=◌, ◌>>◌, require, require_some, on_row,
}
use tiktok_techjam_recsys_ag.Store.Documents.{end, field, text}
use tiktok_techjam_recsys_ag.Submission.States.{
  submission_state_eq, ready_for_handoff, handoff_in_progress, handed_off,
}
use tiktok_techjam_recsys_ag.Submission.Schema.{
  Job, Handoff, is_complete, authorized, complete, SubmissionDb,
}
use tiktok_techjam_recsys_ag.Submission.Jobs.{Host, get_job, transition}

-- What a call leaves in the tables, and what it returns or raises.
abbrev pub Outcome : Type 0 → Type 0
Outcome A = SubmissionDb × Result A

-- The statements after one that may raise; the tables stay as they are when it does.
abbrev pub attempt : {A B : Type 0} → SubmissionDb → Result A → (A → Outcome B) → Outcome B
attempt db (err raised) rest = (db, err raised)
attempt db (ok value) rest = rest value

unfoldable pub get_handoff : String → SubmissionDb → Result Handoff
get_handoff id db =
    require_some (get id db.submission_handoffs) (repository_error "submission job has no handoff")
    >>= λ row. ok row

-- UNIQUE(target_path)
abbrev pub is_claimed : String → SubmissionDb → Bool
is_claimed target db = any (λ row. row.target_path == target) (rows db.submission_handoffs)

abbrev pub claim_row : Host → String → String → Handoff
claim_row host seal target = record {
  authorized_seal_sha256 = seal;
  target_path = target;
  target_manifest_sha256 = none;
  status = authorized;
  authorized_at = host.now;
  completed_at = none;
}

-- The transaction of `authorize_handoff`.
unfoldable pub claim_handoff : Host → String → String → String → SubmissionDb → Result SubmissionDb
claim_handoff host id seal target db =
    on_row (get id db.submission_handoffs)
      (λ stored.
        require (stored.authorized_seal_sha256 == seal && stored.target_path == target)
          (repository_error "one-time handoff was already authorized")
        >> ok db)
      (require (is_some (get id db.submission_jobs) && not (is_claimed target db))
          (repository_error "handoff target was already claimed by another job")
        >> ok (record db {
          submission_handoffs = put id (claim_row host seal target) db.submission_handoffs;
        }))

-- What `authorize_handoff` does after its transaction.
unfoldable pub start_handoff : Host → String → String → String → SubmissionDb → Outcome Handoff
start_handoff host id seal target db = attempt db (get_job id db) (λ job.
    if job.state == ready_for_handoff
    then attempt db
        (transition host id ready_for_handoff handoff_in_progress
          (field "seal_sha256" (text seal) (field "target_path" (text target) end)) [] db)
        (λ moved. (moved.0, get_handoff id moved.0))
    else if job.state == handoff_in_progress
    then (db, get_handoff id db)
    else (db, err (repository_error "unexpected handoff authorization job state")))

unfoldable pub authorize_handoff : Host → String → String → String → SubmissionDb → Outcome Handoff
authorize_handoff host id seal target db = attempt db (get_job id db) (λ job.
    if not (job.state == ready_for_handoff)
    then (
      db,
      if job.state == handoff_in_progress
          then get_handoff id db
          else err (repository_error "handoff requires READY_FOR_HANDOFF"),
    )
    else if not (job.seal_sha256 == some seal)
    then (db, err (repository_error "handoff authorization does not match sealed manifest"))
    else attempt db (claim_handoff host id seal target db) (start_handoff host id seal target))

abbrev pub finished_row : Host → String → Handoff → Handoff
finished_row host manifest row = record row {
  status = complete;
  target_manifest_sha256 = some manifest;
  completed_at = some host.now;
}

-- The transaction of `complete_handoff`.
unfoldable pub finish_handoff : Host → String → String → SubmissionDb → Result SubmissionDb
finish_handoff host id manifest db =
    require_some (get id db.submission_handoffs)
      (repository_error "handoff has not been authorized")
    >>= λ row.
        if is_complete row.status
        then (require (row.target_manifest_sha256 == some manifest)
              (repository_error "completed handoff manifest drifted")
            >> ok db)
        else ok (record db {
          submission_handoffs = put id (finished_row host manifest row) db.submission_handoffs;
        })

-- What `complete_handoff` does after its transaction.
unfoldable pub close_handoff : Host → String → String → SubmissionDb → Outcome Job
close_handoff host id manifest db = attempt db (get_job id db) (λ job.
    if job.state == handed_off
    then (db, ok job)
    else if not (job.state == handoff_in_progress)
    then (db, err (repository_error "handoff job state is inconsistent"))
    else attempt db
        (transition host id handoff_in_progress handed_off
          (field "target_manifest_sha256" (text manifest) end) [] db)
        (λ moved. (moved.0, ok moved.1)))

unfoldable pub complete_handoff : Host → String → String → SubmissionDb → Outcome Job
complete_handoff host id manifest db =
    attempt db (finish_handoff host id manifest db) (close_handoff host id manifest)
