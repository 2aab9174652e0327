-- ===== src/Submission/Replays.antt =====
-- Calls of src/rex/submission/repository.py made again on the tables they left.
use tiktok_techjam_recsys_ag.Prelude.{
  none_when_absent, ◌≡◌, refl, inl, inr, Bool, true, not, none, some, List, [], ◌∷◌, ◌++◌, String,
  ◌==◌, string_eq, list_eq, find_by, is_some, Bool-cases, ==_refl, eq_of_==, arith, ℕ,
}
use tiktok_techjam_recsys_ag.Prelude.Int.{ℤ, int_eq}
use tiktok_techjam_recsys_ag.Prelude.Table.{Table, get, put, get-put_self}
use tiktok_techjam_recsys_ag.Result.{ok, ◌>>=◌}
use tiktok_techjam_recsys_ag.Result.Ensures.{Ensures, Ensures-ok, Ensures-require, Ensures-on_row}
use tiktok_techjam_recsys_ag.Submission.Schema.{SourceLocator, Job, Check, SubmissionDb}
use tiktok_techjam_recsys_ag.Submission.Jobs.{
  Host, job_key, same_source, agrees, new_job, get_job, create_job,
}
use tiktok_techjam_recsys_ag.Submission.Checks.{
  CheckRun, check_row, same_check, get_check, record_check,
}

module _ {A : Type 0} (p : A → Bool) where
  find-append :
      (a : A) (xs : List A) → find_by p xs ≡ none → p a ≡ true → find_by p (xs ++ a ∷ []) ≡ some a
  unfolding find_by
  find-append a [] h k = rw k refl
  find-append a (x ∷ xs) h k = elim (Bool-cases (p x)) [
    | inl found ↦ cc
    | inr other ↦ rw other (find-append a xs (rw other at h) k)
  ]

-- `put` of a new key appends.
put_new :
    {V : Type 0} (k : String) (v : V) (t : Table String V)
    → get k t ≡ none
    → put k v t ≡ t ++ (k, v) ∷ []
unfolding get put
put_new k v [] h = refl
put_new k v ((j, w) ∷ t) h = elim (Bool-cases (j == k)) [
  | inl same ↦ cc
  | inr other ↦ let later : get k t ≡ none = rw other at h in rw (other, put_new k v t later) refl
]

same_check_refl : (c : Check) → same_check c c ≡ true
same_check_refl c = ground arith

-- A row holds what a run of the checker was called with, and the hashes of its two files.
pub record Holds (host : Host) (run : CheckRun) (row : Check) : Type 0 where
  pub csv_path : row.csv_path ≡ run.csv_path
  pub csv_sha256 : row.csv_sha256 ≡ host.sha256_file run.csv_path
  pub command : row.command_json ≡ run.command
  pub stdout : row.stdout ≡ run.stdout
  pub stderr : row.stderr ≡ run.stderr
  pub returncode : row.returncode ≡ run.returncode
  pub transcript_path : row.transcript_path ≡ run.transcript_path
  pub transcript_sha256 : row.transcript_sha256 ≡ host.sha256_file run.transcript_path

same-Holds :
    (host : Host) (id : String) (ordinal : ℤ) (run : CheckRun) (row : Check)
    → same_check row (check_row host id ordinal run) ≡ true
    → Holds host run row
same-Holds host id ordinal run row h = record {
  csv_path = eq_of_== (ground arith);
  csv_sha256 = eq_of_== (ground arith);
  command = eq_of_== (ground arith);
  stdout = eq_of_== (ground arith);
  stderr = eq_of_== (ground arith);
  returncode = eq_of_== (ground arith);
  transcript_path = eq_of_== (ground arith);
  transcript_sha256 = eq_of_== (ground arith);
}

-- What a run of the checker is stored as.
abbrev pub Stored : Host → String → ℤ → CheckRun → SubmissionDb → Type 0
Stored host id ordinal run db =
    (row : Check) × (get_check id ordinal db ≡ some row) × Holds host run row

appended-Stored :
    (host : Host) (id : String) (ordinal : ℤ) (run : CheckRun) (db : SubmissionDb)
    → get_check id ordinal db ≡ none
    → Stored host id ordinal run (record db {
      submission_checks = db.submission_checks ++ check_row host id ordinal run ∷ [];
    })
unfolding get_check
appended-Stored host id ordinal run db missing =
    let row = check_row host id ordinal run in
    (
      row,
      find-append _ row db.submission_checks missing (rw (==_refl id, ==_refl ordinal) refl),
      same-Holds host id ordinal run row (same_check_refl row),
    )

found-Stored :
    (host : Host) (id : String) (ordinal : ℤ) (run : CheckRun) (db : SubmissionDb) (row : Check)
    → get_check id ordinal db ≡ some row
    → same_check row (check_row host id ordinal run) ≡ true
    → Stored host id ordinal run db
found-Stored host id ordinal run db row found same =
    (row, found, same-Holds host id ordinal run row same)

-- When `record_check` returns, `get_check` of the same job and ordinal gives a row with the paths, the
-- hashes of the two files, the command, the outputs and the return code that were recorded.
pub record_check-Stored :
    (host : Host) (id : String) (ordinal : ℤ) (run : CheckRun) (db : SubmissionDb)
    → Ensures (Stored host id ordinal run) (record_check host id ordinal run db)
unfolding record_check
record_check-Stored host id ordinal run db =
    search (Ensures-on_row, Ensures-require, Ensures-ok, appended-Stored, found-Stored) depth 12

-- A second `create_job` at a later time returns what the first one returned.
abbrev pub Repeats : Host → SourceLocator → ℕ → SubmissionDb × Job → Type 0
Repeats host source later made = create_job (record host { now = later }) source made.0 ≡ ok made

found-Repeats :
    (host : Host) (source : SourceLocator) (db : SubmissionDb) (later : ℕ) (row : String × Job)
    → find_by (same_source source) db.submission_jobs ≡ some row
    → agrees (job_key host source) source row ≡ true
    → Repeats host source later (db, row.1)
unfolding create_job
found-Repeats host source db later row found same = rw (found, same) refl

new_job_lem :
    (host : Host) (source : SourceLocator) (now : ℕ)
    → (same_source source (job_key host source, new_job source now) ≡ true)
      × (agrees (job_key host source) source (job_key host source, new_job source now) ≡ true)
new_job_lem host source now = (ground arith, ground arith)

new-Repeats :
    (host : Host) (source : SourceLocator) (db : SubmissionDb) (later : ℕ)
    → find_by (same_source source) db.submission_jobs ≡ none
    → not (is_some (get (job_key host source) db.submission_jobs)) ≡ true
    → let id = job_key host source in
      let db' = record db {
        submission_jobs = put id (new_job source host.now) db.submission_jobs;
      } in
      Ensures (Repeats host source later) (get_job id db' >>= λ job. ok (db', job))
unfolding get_job
new-Repeats host source db later missing absent =
    let id = job_key host source in
    let row = new_job source host.now in
    let db' = record db { submission_jobs = put id row db.submission_jobs } in
    let facts = new_job_lem host source host.now in
    let appended =
      put_new id row db.submission_jobs (none_when_absent (get id db.submission_jobs) absent) in
    let found : find_by (same_source source) db'.submission_jobs ≡ some (id, row) =
      rw appended (find-append (same_source source) (id, row) db.submission_jobs missing facts.0) in
    rw (get-put_self id row db.submission_jobs)
      (Ensures-ok (db', row) (found-Repeats host source db' later (id, row) found facts.1))

-- A second `create_job` of the same source, at any later time, returns the job that the first one
-- returned and changes nothing.
pub create_job-Repeats :
    (host : Host) (source : SourceLocator) (db : SubmissionDb) (later : ℕ)
    → Ensures (Repeats host source later) (create_job host source db)
unfolding create_job
create_job-Repeats host source db later =
    search (Ensures-on_row, Ensures-require, Ensures-ok, found-Repeats, new-Repeats) depth 12
