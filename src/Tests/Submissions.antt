-- ===== src/Tests/Submissions.antt =====
-- A concrete submission job of src/rex/submission/repository.py.
use tiktok_techjam_recsys_ag.Prelude.{
  ℕ, ◌≡◌, ◌&&◌, refl, none, some, Option, List, [], ◌∷◌, all, String, String-discrete,
  Option-discrete, string_eq, find_by,
}
use tiktok_techjam_recsys_ag.Prelude.Int.{pos}
use tiktok_techjam_recsys_ag.Prelude.Table.{get, put}
use tiktok_techjam_recsys_ag.Prelude.Texts.{first_chars}
use tiktok_techjam_recsys_ag.Result.{is_ok, Result, ok}
use tiktok_techjam_recsys_ag.Result.Ensures.{Ensures}
use tiktok_techjam_recsys_ag.Store.Documents.{end}
use tiktok_techjam_recsys_ag.Submission.States.{
  SubmissionState, SubmissionState-discrete, submission_state_eq, next_states, created,
  source_verified, worktree_ready, predicting, predicted, csv_built, first_check_valid, staging,
  second_check_valid, sealed, ready_for_handoff, handed_off, failed, is_next, is_failure,
}
use tiktok_techjam_recsys_ag.Submission.Schema.{SourceLocator, Job, SubmissionDb, complete}
use tiktok_techjam_recsys_ag.Submission.Jobs.{
  Host, get_job, create_job, insert_transition, transition, terminate,
}
use tiktok_techjam_recsys_ag.Submission.Jobs.Columns.{is_update_column, set_columns}
use tiktok_techjam_recsys_ag.Submission.Checks.{CheckRun, record_check}
use tiktok_techjam_recsys_ag.Submission.Handoffs.{
  authorize_handoff, complete_handoff, start_handoff, get_handoff, close_handoff, claim_handoff,
  finish_handoff,
}
use tiktok_techjam_recsys_ag.Submission.Coordinator.{handoff, copy_handoff}
use tiktok_techjam_recsys_ag.Submission.Coordinator.Handed.{HandedOff, handoff-HandedOff}
use tiktok_techjam_recsys_ag.Submission.Replays.{
  Stored, record_check-Stored, Repeats, create_job-Repeats,
}
use tiktok_techjam_recsys_ag.Submission.Calls.{Transaction, run, commit, commits, empty}
use tiktok_techjam_recsys_ag.Submission.Calls.Trail.{IsTrail}
use tiktok_techjam_recsys_ag.Submission.Calls.Replayed.{commits-IsTrail}
use tiktok_techjam_recsys_ag.Submission.Calls.Accepted.{
  is_in, is_going, transition_returns, terminate_returns,
}
use tiktok_techjam_recsys_ag.Submission.Calls.Claims.{
  SoleTarget, commits-SoleTarget, KeptHandoff, commits-KeptHandoff,
}
use tiktok_techjam_recsys_ag.Submission.Calls.Delivery.{handoff_delivers}

abbrev host : Host
host = record { sha256 = λ s. s; sha256_file = λ path. path; now = 50 }

abbrev source : SourceLocator
source = record {
  source_run_id = "r1";
  source_database_path = "/runs/r1/db";
  source_run_fingerprint = "f";
  source_report_path = "/runs/r1/report";
  source_report_sha256 = "p";
  best_valid_path = "/runs/r1/best";
  best_valid_sha256 = "b1";
}

abbrev id : String
id = "submission-r1\0b1"

abbrev move : SubmissionState → SubmissionState → Transaction
move s t = Transaction.move id s t end []

-- The job up to READY_FOR_HANDOFF.
abbrev to_handoff : List (ℕ × Transaction)
to_handoff =
    (1, Transaction.creation source)
    ∷ (2, move created source_verified)
    ∷ (3, move source_verified worktree_ready)
    ∷ (4, move worktree_ready predicting)
    ∷ (5, move predicting predicted)
    ∷ (6, move predicted csv_built)
    ∷ (7, move csv_built first_check_valid)
    ∷ (8, move first_check_valid staging)
    ∷ (9, move staging second_check_valid)
    ∷ (10, Transaction.move id second_check_valid sealed end (("seal_sha256", some "s") ∷ []))
    ∷ (11, move sealed ready_for_handoff)
    ∷ []

abbrev ready : SubmissionDb
ready = commits host to_handoff empty

commits-IsTrail_example : IsTrail ready
commits-IsTrail_example = commits-IsTrail host to_handoff

abbrev updates : List (String × Option String)
updates = ("source_commit", some "c") ∷ []

transition_returns_example :
    is_ok (transition host id created source_verified end updates ready) ≡ (
      is_next created source_verified
      && all (λ u. is_update_column u.0) updates
      && is_in (get id ready.submission_jobs) created source_verified)
transition_returns_example =
    transition_returns host id created source_verified end updates ready
      (commits-IsTrail host to_handoff)

terminate_returns_example :
    is_ok (terminate host id failed "E_COPY" "no space left" ready)
    ≡ (is_failure failed && is_going (get id ready.submission_jobs))
terminate_returns_example =
    terminate_returns host id failed "E_COPY" "no space left" ready
      (commits-IsTrail host to_handoff)

abbrev claims : List (ℕ × Transaction)
claims =
    (1, Transaction.creation source)
    ∷ (2, Transaction.claim id "s" "/out")
    ∷ (3, Transaction.claim id "s" "/other")
    ∷ (4, Transaction.finish id "m")
    ∷ []

commits-SoleTarget_example : SoleTarget (commits host claims empty).submission_handoffs
commits-SoleTarget_example = commits-SoleTarget host claims

commits-KeptHandoff_example :
    KeptHandoff
      (get id (commits host claims empty).submission_handoffs)
      (get id (commits host claims (commits host claims empty)).submission_handoffs)
commits-KeptHandoff_example = commits-KeptHandoff host claims (commits host claims empty) id

create_job-Repeats_example : Ensures (Repeats host source 60) (create_job host source empty)
create_job-Repeats_example = create_job-Repeats host source empty 60

abbrev checked : CheckRun
checked = record {
  csv_path = "/w/out.csv";
  command = "check" ∷ [];
  stdout = "ok";
  stderr = "";
  returncode = pos 0;
  transcript_path = "/w/check.txt";
}

record_check-Stored_example :
    Ensures (Stored host id (pos 1) checked) (record_check host id (pos 1) checked ready)
record_check-Stored_example = record_check-Stored host id (pos 1) checked ready

abbrev ready_job : Job
ready_job = record {
  source = source;
  state = ready_for_handoff;
  source_commit = none;
  config_sha256 = none;
  incumbent_experiment_id = none;
  worktree_path = none;
  prediction_request_json = none;
  prediction_path = none;
  prediction_sha256 = none;
  csv_path = none;
  csv_sha256 = none;
  staging_path = none;
  sealed_path = none;
  seal_sha256 = some "s";
  error_code = none;
  error_summary = none;
  created_at = 1;
  updated_at = 11;
}

ready_job_lem : get id ready.submission_jobs ≡ some ready_job
unfolding commits commit run create_job transition insert_transition get_job find_by get put
    next_states SubmissionState-discrete String-discrete Option-discrete set_columns
    is_update_column first_chars
ready_job_lem = refl

unclaimed_lem : get id ready.submission_handoffs ≡ none
unfolding commits commit run create_job transition insert_transition get_job find_by get put
    next_states SubmissionState-discrete String-discrete Option-discrete set_columns
    is_update_column first_chars
unclaimed_lem = refl

handoff_delivers_example :
    let db' = (complete_handoff host id "m" (authorize_handoff host id "s" "/out" ready).0).0 in
    (get id db'.submission_jobs ≡ some (record ready_job { state = handed_off; updated_at = 50 }))
    × (get id db'.submission_handoffs
        ≡ some (record {
          authorized_seal_sha256 = "s";
          target_path = "/out";
          target_manifest_sha256 = some "m";
          status = complete;
          authorized_at = 50;
          completed_at = some 50;
        }))
unfolding commits commit run create_job transition insert_transition get_job find_by get put
    next_states SubmissionState-discrete String-discrete Option-discrete set_columns
    is_update_column first_chars
handoff_delivers_example =
    handoff_delivers host id "s" "/out" "m" ready_job ready (commits-IsTrail host to_handoff)
      ready_job_lem refl refl unclaimed_lem refl

-- A transport whose copy has the manifest of the seal.
abbrev transport : Option String → String → String → Result String
transport bundle target seal = ok seal

abbrev handed_job : Job
handed_job = record ready_job { state = handed_off; updated_at = 50 }

handoff_lem :
    handoff transport host id "/out" "s" ready
    ≡ ((handoff transport host id "/out" "s" ready).0, ok handed_job)
unfolding commits commit run create_job transition insert_transition get_job find_by get put
    next_states SubmissionState-discrete String-discrete Option-discrete set_columns
    is_update_column first_chars handoff copy_handoff authorize_handoff claim_handoff start_handoff
    get_handoff complete_handoff finish_handoff close_handoff
handoff_lem = refl

handoff-HandedOff_example :
    HandedOff id "/out" "s" (handoff transport host id "/out" "s" ready).0 handed_job
handoff-HandedOff_example =
    handoff-HandedOff transport host id "/out" "s" ready
      (handoff transport host id "/out" "s" ready).0 handed_job handoff_lem
