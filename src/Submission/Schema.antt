-- ===== src/Submission/Schema.antt =====
-- The tables of src/rex/submission/schema.sql and the columns that a transition may update. A JSON column
-- is its document; a time is the number that `utc_now` gave.
use tiktok_techjam_recsys_ag.Prelude.{ℕ, Bool, true, false, String, Option, List, string_eq}
use tiktok_techjam_recsys_ag.Prelude.Int.{ℤ}
use tiktok_techjam_recsys_ag.Prelude.Table.{Table}
use tiktok_techjam_recsys_ag.Store.Documents.{Fields}
use tiktok_techjam_recsys_ag.Submission.States.{SubmissionState}

-- `SourceLocator`; paths are resolved texts.
pub record SourceLocator : Type 0 where
  pub source_run_id : String
  pub source_database_path : String
  pub source_run_fingerprint : String
  pub source_report_path : String
  pub source_report_sha256 : String
  pub best_valid_path : String
  pub best_valid_sha256 : String

-- A row of submission_jobs, under its job_id. UNIQUE(source_run_id, best_valid_sha256).
pub record Job : Type 0 where
  pub source : SourceLocator
  pub state : SubmissionState
  pub source_commit : Option String
  pub config_sha256 : Option String
  pub incumbent_experiment_id : Option String
  pub worktree_path : Option String
  pub prediction_request_json : Option String
  pub prediction_path : Option String
  pub prediction_sha256 : Option String
  pub csv_path : Option String
  pub csv_sha256 : Option String
  pub staging_path : Option String
  pub sealed_path : Option String
  pub seal_sha256 : Option String
  pub error_code : Option String
  pub error_summary : Option String
  pub created_at : ℕ
  pub updated_at : ℕ

-- UNIQUE(job_id, to_state)
pub record Transition : Type 0 where
  pub job_id : String
  pub from_state : SubmissionState
  pub to_state : SubmissionState
  pub evidence_json : Fields
  pub created_at : ℕ

-- UNIQUE(job_id, ordinal)
pub record Check : Type 0 where
  pub job_id : String
  pub ordinal : ℤ
  pub csv_path : String
  pub csv_sha256 : String
  pub command_json : List String
  pub stdout : String
  pub stderr : String
  pub returncode : ℤ
  pub transcript_path : String
  pub transcript_sha256 : String
  pub created_at : ℕ

-- `status`
pub data HandoffStatus : Type 0 where
  authorized complete : HandoffStatus

abbrev pub is_complete : HandoffStatus → Bool
is_complete authorized = false
is_complete complete = true

-- A row of submission_handoffs, under its job_id. UNIQUE(target_path).
pub record Handoff : Type 0 where
  pub authorized_seal_sha256 : String
  pub target_path : String
  pub target_manifest_sha256 : Option String
  pub status : HandoffStatus
  pub authorized_at : ℕ
  pub completed_at : Option ℕ

pub record SubmissionDb : Type 0 where
  pub submission_jobs : Table String Job
  pub submission_transitions : List Transition
  pub submission_checks : List Check
  pub submission_handoffs : Table String Handoff
