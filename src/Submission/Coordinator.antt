-- ===== src/Submission/Coordinator.antt =====
-- src/rex/submission/coordinator.py: `handoff`, `reject` and `fail`. The transport of a bundle, which the
-- coordinator is given, is a parameter.
pub mod Handed
use tiktok_techjam_recsys_ag.Prelude.{
  ℕ, zero, suc, Bool, not, ◌&&◌, ◌||◌, Option, some, List, [], ◌∷◌, String, ◌==◌, string_eq,
  option_eq, contains, if◌then◌else◌,
}
use tiktok_techjam_recsys_ag.Result.{Result, ok, err, repository_error}
use tiktok_techjam_recsys_ag.Store.Documents.{Fields, end, field, text, text_or_null}
use tiktok_techjam_recsys_ag.Submission.States.{
  SubmissionState, submission_state_eq, created, source_verified, worktree_ready, predicting,
  predicted, csv_built, first_check_valid, staging, second_check_valid, sealed, ready_for_handoff,
  handoff_in_progress, handed_off, rejected, failed,
}
use tiktok_techjam_recsys_ag.Submission.Schema.{Job, Handoff, SubmissionDb}
use tiktok_techjam_recsys_ag.Submission.Jobs.{Host, get_job, transition, terminate}
use tiktok_techjam_recsys_ag.Submission.Handoffs.{
  Outcome, attempt, get_handoff, authorize_handoff, complete_handoff,
}

-- What a single transaction of the repository returns.
abbrev pub outcome : SubmissionDb → Result (SubmissionDb × Job) → Outcome Job
outcome db (err raised) = (db, err raised)
outcome db (ok moved) = (moved.0, ok moved.1)

unfoldable pub reject : Host → String → String → String → SubmissionDb → Outcome Job
reject host id code summary db = outcome db (terminate host id rejected code summary db)

unfoldable pub fail : Host → String → String → String → SubmissionDb → Outcome Job
fail host id code summary db = outcome db (terminate host id failed code summary db)

abbrev pub same_handoff : String → String → Handoff → Bool
same_handoff seal target h = h.authorized_seal_sha256 == seal && h.target_path == target

-- `handoff_transport` and `sha256_file` of the manifest that it copied.
module _ (transport : Option String → String → String → Result String) (host : Host) where
  -- The part of `handoff` from its check of HANDOFF_IN_PROGRESS on.
  unfoldable pub copy_handoff : String → String → String → SubmissionDb → Job → Outcome Job
  copy_handoff id target seal db job =
      if not (job.state == handoff_in_progress)
      then (db, err (repository_error "submission is not ready for handoff"))
      else attempt db (get_handoff id db) (λ h.
        if not (same_handoff seal target h)
        then (db, err (repository_error "handoff request conflicts with one-time authorization"))
        else attempt db (transport job.sealed_path h.target_path seal) (λ copied.
          if not (copied == seal)
          then (db, err (repository_error "handoff copy does not match authorized seal"))
          else complete_handoff host id copied db))

  abbrev pub after_authorization : String → String → String → Outcome Handoff → Outcome Job
  after_authorization id target seal (db, err raised) = (db, err raised)
  after_authorization id target seal (db, ok _) =
      attempt db (get_job id db) (copy_handoff id target seal db)

  unfoldable pub handoff : String → String → String → SubmissionDb → Outcome Job
  handoff id target seal db = attempt db (get_job id db) (λ job.
      if job.state == handed_off
      then attempt db (get_handoff id db) (λ h.
        if not (same_handoff seal target h)
        then (db, err (repository_error "one-time handoff cannot be redirected"))
        else (db, ok job))
      else if job.state == ready_for_handoff
      then after_authorization id target seal (authorize_handoff host id seal target db)
      else copy_handoff id target seal db job)
