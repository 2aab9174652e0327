-- ===== src/Submission/Checks.antt =====
-- src/rex/submission/repository.py: `record_check` and `get_check`.
use tiktok_techjam_recsys_ag.Prelude.{
  Bool, ◌&&◌, Option, List, [], ◌∷◌, ◌++◌, String, ◌==◌, string_eq, list_eq, find_by, is_some,
}
use tiktok_techjam_recsys_ag.Prelude.Int.{ℤ, int_eq}
use tiktok_techjam_recsys_ag.Prelude.Table.{get}
use tiktok_techjam_recsys_ag.Result.{
  Result, ok, repository_error, integrity_error, ◌>>◌, require, on_row,
}
use tiktok_techjam_recsys_ag.Submission.Schema.{Check, SubmissionDb}
use tiktok_techjam_recsys_ag.Submission.Jobs.{Host}

-- The arguments of `record_check`; the paths are resolved.
pub record CheckRun : Type 0 where
  pub csv_path : String
  pub command : List String
  pub stdout : String
  pub stderr : String
  pub returncode : ℤ
  pub transcript_path : String

abbrev pub check_row : Host → String → ℤ → CheckRun → Check
check_row host id ordinal run = record {
  job_id = id;
  ordinal = ordinal;
  csv_path = run.csv_path;
  csv_sha256 = host.sha256_file run.csv_path;
  command_json = run.command;
  stdout = run.stdout;
  stderr = run.stderr;
  returncode = run.returncode;
  transcript_path = run.transcript_path;
  transcript_sha256 = host.sha256_file run.transcript_path;
  created_at = host.now;
}

abbrev pub same_check : Check → Check → Bool
same_check stored incoming =
    stored.csv_path == incoming.csv_path
    && stored.csv_sha256 == incoming.csv_sha256
    && stored.command_json == incoming.command_json
    && stored.stdout == incoming.stdout
    && stored.stderr == incoming.stderr
    && stored.returncode == incoming.returncode
    && stored.transcript_path == incoming.transcript_path
    && stored.transcript_sha256 == incoming.transcript_sha256

unfoldable pub get_check : String → ℤ → SubmissionDb → Option Check
get_check id ordinal db =
    find_by (λ row. row.job_id == id && row.ordinal == ordinal) db.submission_checks

unfoldable pub record_check : Host → String → ℤ → CheckRun → SubmissionDb → Result SubmissionDb
record_check host id ordinal run db =
    let row = check_row host id ordinal run in
    on_row (get_check id ordinal db)
      (λ stored.
        require (same_check stored row) (repository_error "conflicting checker replay") >> ok db)
      (require (is_some (get id db.submission_jobs)) integrity_error
        >> ok (record db { submission_checks = db.submission_checks ++ row ∷ [] }))
