-- ===== src/Submission/Jobs.antt =====
-- src/rex/submission/repository.py: `create_job`, `get_job`, `transition` and `terminate`. Each is one
-- database transaction, so a call that raises leaves the tables as they were.
pub mod Columns
use Prim.Native.String.{◌++◌ as join}
use tiktok_techjam_recsys_ag.Prelude.{
  ℕ, ◌≡◌, Bool, not, ◌&&◌, Option, none, some, List, [], ◌∷◌, ◌++◌, String, ◌==◌, string_eq, all,
  any, find_by, is_some, if◌then◌else◌,
}
use tiktok_techjam_recsys_ag.Prelude.Texts.{first_chars, last_chars}
use tiktok_techjam_recsys_ag.Prelude.Table.{Table, get, put}
use tiktok_techjam_recsys_ag.Result.{
  Result, ok, err, repository_error, integrity_error, ◌>>=◌, ◌>>◌, require, require_some, on_row,
}
use tiktok_techjam_recsys_ag.Store.Documents.{Fields, end, field, text}
use tiktok_techjam_recsys_ag.Submission.States.{
  SubmissionState, submission_state_eq, created, is_next, is_failure, is_final,
}
use tiktok_techjam_recsys_ag.Submission.Schema.{SourceLocator, Job, Transition, SubmissionDb}
use Columns.{is_update_column, set_columns}

-- What the repository takes from its surroundings: the hexadecimal SHA-256 of a text and of a file,
-- and the clock.
pub record Host : Type 0 where
  pub sha256 : String → String
  pub sha256_file : String → String
  pub now : ℕ

abbrev pub job_key : Host → SourceLocator → String
job_key host source =
    let identity = join source.source_run_id (join "\0" source.best_valid_sha256) in
    join "submission-" (first_chars 20 (host.sha256 identity))

abbrev pub same_source : SourceLocator → String × Job → Bool
same_source source row =
    row.1.source.source_run_id == source.source_run_id
    && row.1.source.best_valid_sha256 == source.best_valid_sha256

-- The stored columns that a replay must repeat.
abbrev pub agrees : String → SourceLocator → String × Job → Bool
agrees id source row =
    row.0 == id
    && row.1.source.source_database_path == source.source_database_path
    && row.1.source.source_run_fingerprint == source.source_run_fingerprint
    && row.1.source.source_report_path == source.source_report_path
    && row.1.source.source_report_sha256 == source.source_report_sha256
    && row.1.source.best_valid_path == source.best_valid_path

abbrev pub new_job : SourceLocator → ℕ → Job
new_job source now = record {
  source = source;
  state = created;
  source_commit = none;
  config_sha256 = none;
  incumbent_experiment_id = none;
  worktree_path = none;
  prediction_request_json = none;
  prediction_path = none;
  prediction_sha256 = none;
  csv_path = none;
  csv_sha256 = none;
  staging_path = none;
  sealed_path = none;
  seal_sha256 = none;
  error_code = none;
  error_summary = none;
  created_at = now;
  updated_at = now;
}

unfoldable pub get_job : String → SubmissionDb → Result Job
get_job id db =
    require_some (get id db.submission_jobs) (repository_error "unknown submission job") >>= λ row.
    ok row

unfoldable pub create_job : Host → SourceLocator → SubmissionDb → Result (SubmissionDb × Job)
create_job host source db =
    let id = job_key host source in
    on_row (find_by (same_source source) db.submission_jobs)
      (λ row.
        require (agrees id source row) (repository_error "conflicting submission job replay")
        >> ok (db, row.1))
      (require (not (is_some (get id db.submission_jobs))) integrity_error
        >> (let db' = record db {
          submission_jobs = put id (new_job source host.now) db.submission_jobs;
        } in
            get_job id db' >>= λ job. ok (db', job)))

-- UNIQUE(job_id, to_state)
abbrev pub has_entered : String → SubmissionState → List Transition → Bool
has_entered id state rows = any (λ row. row.job_id == id && row.to_state == state) rows

-- `INSERT INTO submission_transitions`
unfoldable pub insert_transition : Transition → SubmissionDb → Result SubmissionDb
insert_transition row db =
    require (not (has_entered row.job_id row.to_state db.submission_transitions)) integrity_error
    >> ok (record db { submission_transitions = db.submission_transitions ++ row ∷ [] })

unfoldable pub transition :
    Host
    → String
    → SubmissionState
    → SubmissionState
    → Fields
    → List (String × Option String)
    → SubmissionDb
    → Result (SubmissionDb × Job)
transition host id expected target evidence updates db =
    require (is_next expected target) (repository_error "invalid submission transition")
    >> (require (all (λ u. is_update_column u.0) updates)
          (repository_error "unsupported submission job updates")
        >> (require_some (get id db.submission_jobs) (repository_error "unknown submission job")
            >>= λ row.
                if row.state == target
                then ok (db, row)
                else (require (row.state == expected) (repository_error "unexpected state")
                    >> (let job =
                          set_columns updates
                            (record row { state = target; updated_at = host.now }) in
                        insert_transition
                          (record {
                            job_id = id;
                            from_state = expected;
                            to_state = target;
                            evidence_json = evidence;
                            created_at = host.now;
                          })
                          (record db { submission_jobs = put id job db.submission_jobs })
                        >>= λ db'. get_job id db' >>= λ stored. ok (db', stored)))))

unfoldable pub terminate :
    Host → String → SubmissionState → String → String → SubmissionDb → Result (SubmissionDb × Job)
terminate host id target code summary db =
    require (is_failure target) (repository_error "terminal state must be REJECTED or FAILED")
    >> (require_some (get id db.submission_jobs) (repository_error "unknown submission job")
        >>= λ row.
            require (not (is_final row.state)) (repository_error "cannot terminate job")
            >> (insert_transition
                  (record {
                    job_id = id;
                    from_state = row.state;
                    to_state = target;
                    evidence_json = field "code" (text code) end;
                    created_at = host.now;
                  })
                  (record db {
                    submission_jobs =
                        put id
                          (record row {
                            state = target;
                            error_code = some code;
                            error_summary = some (last_chars 2000 summary);
                            updated_at = host.now;
                          })
                          db.submission_jobs;
                  })
                >>= λ db'. get_job id db' >>= λ stored. ok (db', stored)))
