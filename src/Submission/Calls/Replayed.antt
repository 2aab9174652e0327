-- ===== src/Submission/Calls/Replayed.antt =====
-- The rows of submission_transitions after a history of the transactions of
-- src/rex/submission/repository.py.
use mathlib.Core.Path.{subst}
use tiktok_techjam_recsys_ag.Prelude.{
  none_when_absent, ℕ, ◌≡◌, refl, sym, inl, inr, true, not, Option, none, some, List, [], ◌∷◌, ◌++◌,
  String, ◌==◌, string_eq, is_some, Bool-cases, eq_of_==, ==_refl,
}
use tiktok_techjam_recsys_ag.Prelude.Table.{get, put, get-put}
use tiktok_techjam_recsys_ag.Result.{Result, ok, err, ◌>>=◌}
use tiktok_techjam_recsys_ag.Result.Ensures.{
  Ensures, ensures_rules, Ensures-ok, Ensures-require, Ensures-if, Ensures-require_some,
  Ensures-bind, Ensures-on_row,
}
use tiktok_techjam_recsys_ag.Store.Documents.{Fields}
use tiktok_techjam_recsys_ag.Submission.States.{SubmissionState, submission_state_eq, created}
use tiktok_techjam_recsys_ag.Submission.Schema.{SourceLocator, Job, Transition, SubmissionDb}
use tiktok_techjam_recsys_ag.Submission.Jobs.{
  Host, insert_transition, get_job, create_job, transition, terminate,
}
use tiktok_techjam_recsys_ag.Submission.Jobs.Columns.{set_columns-state}
use tiktok_techjam_recsys_ag.Submission.Checks.{record_check}
use tiktok_techjam_recsys_ag.Submission.Handoffs.{claim_handoff, finish_handoff}
use tiktok_techjam_recsys_ag.Submission.Calls.{Transaction, run, commit, commits, empty}
use tiktok_techjam_recsys_ag.Submission.Calls.Trail.{
  is_legal, step_is_legal, stop_is_legal, replay, replay-append, IsTrail,
}

-- A transaction that leaves the jobs and their transitions alone.
pub same-IsTrail :
    (db db' : SubmissionDb)
    → IsTrail db
    → db'.submission_jobs ≡ db.submission_jobs
    → db'.submission_transitions ≡ db.submission_transitions
    → IsTrail db'
same-IsTrail db db' h jobs rows = record { at = λ id. rw (jobs, rows) (h.at id) }

-- A new job.
new-IsTrail :
    (id : String) (job : Job) (db : SubmissionDb)
    → IsTrail db
    → get id db.submission_jobs ≡ none
    → job.state ≡ created
    → IsTrail (record db { submission_jobs = put id job db.submission_jobs })
new-IsTrail id job db h absent state = record {
  at = λ k. rw (get-put id k job db.submission_jobs) (elim (Bool-cases (id == k)) [
    | inl same ↦
        let p : id ≡ k = eq_of_== same in
        let q : get k db.submission_jobs ≡ none =
          subst (λ i. get i db.submission_jobs ≡ none) p absent in
        rw (same, h.at k, q, state) refl
    | inr other ↦ rw other (h.at k)
  ]);
}

-- A job and the row that records its move.
pub moved-IsTrail :
    (id : String) (job job' : Job) (row : Transition) (db : SubmissionDb)
    → IsTrail db
    → get id db.submission_jobs ≡ some job
    → row.job_id ≡ id
    → row.from_state ≡ job.state
    → is_legal job.state row.to_state ≡ true
    → job'.state ≡ row.to_state
    → IsTrail (record db {
      submission_jobs = put id job' db.submission_jobs;
      submission_transitions = db.submission_transitions ++ row ∷ [];
    })
moved-IsTrail id job job' row db h stored owner from legal state = record {
  at = λ k.
      rw
        (
          get-put id k job' db.submission_jobs,
          replay-append k (some created) db.submission_transitions row,
          h.at k,
          owner,
        )
        (elim (Bool-cases (id == k)) [
          | inl same ↦
              let p : id ≡ k = eq_of_== same in
              let q : get k db.submission_jobs ≡ some job =
                subst (λ i. get i db.submission_jobs ≡ some job) p stored in
              rw (same, q, from, ==_refl job.state, legal, state) refl
          | inr other ↦ rw other refl
        ]);
}

abbrev logged : Transition → SubmissionDb → SubmissionDb
logged row db = record db { submission_transitions = db.submission_transitions ++ row ∷ [] }

inserted :
    (row : Transition) (db : SubmissionDb)
    → Ensures (λ db'. db' ≡ logged row db) (insert_transition row db)
unfolding insert_transition
inserted row db = Ensures-require _ _ _ (λ fresh. Ensures-ok (logged row db) refl)

insert-IsTrail :
    (row : Transition) (db db' : SubmissionDb)
    → insert_transition row db ≡ ok db'
    → IsTrail (logged row db)
    → IsTrail db'
insert-IsTrail row db db' done h = subst IsTrail (sym ((inserted row db).at db' done)) h

abbrev TrailKept : SubmissionDb × Job → Type 0
TrailKept moved = IsTrail moved.0

inserted-IsTrail :
    (id : String) (row : Transition) (db : SubmissionDb)
    → IsTrail (logged row db)
    → Ensures TrailKept
        (insert_transition row db >>= λ db'. get_job id db' >>= λ stored. ok (db', stored))
inserted-IsTrail id row db h = Ensures-bind (insert_transition row db) _ (λ db' done.
    Ensures-bind (get_job id db') _
      (λ job _. Ensures-ok (db', job) (insert-IsTrail row db db' done h)))

-- What a call that moves a job needs.
entered-IsTrail :
    (id : String) (job job' : Job) (row : Transition) (db : SubmissionDb)
    → IsTrail db
    → get id db.submission_jobs ≡ some job
    → row.job_id ≡ id
    → row.from_state ≡ job.state
    → is_legal job.state row.to_state ≡ true
    → job'.state ≡ row.to_state
    → Ensures TrailKept (
        insert_transition row (record db { submission_jobs = put id job' db.submission_jobs })
        >>= λ db'. get_job id db' >>= λ stored. ok (db', stored))
entered-IsTrail id job job' row db h stored owner from legal state =
    inserted-IsTrail id row (record db { submission_jobs = put id job' db.submission_jobs })
      (moved-IsTrail id job job' row db h stored owner from legal state)

expected_lem : (s e : SubmissionState) → (s == e) ≡ true → e ≡ s
expected_lem s e h = sym (eq_of_== h)

ruleset trail_rules = (
  Ensures-ok, Ensures-require, Ensures-if, Ensures-require_some, entered-IsTrail, expected_lem,
  step_is_legal, stop_is_legal, set_columns-state, refl,
)

transition-IsTrail :
    (host : Host) (id : String) (expected target : SubmissionState) (evidence : Fields)
    (updates : List (String × Option String)) (db : SubmissionDb)
    → IsTrail db
    → Ensures TrailKept (transition host id expected target evidence updates db)
unfolding transition
transition-IsTrail host id expected target evidence updates db h = search trail_rules depth 16

terminate-IsTrail :
    (host : Host) (id : String) (target : SubmissionState) (code summary : String)
    (db : SubmissionDb)
    → IsTrail db
    → Ensures TrailKept (terminate host id target code summary db)
unfolding terminate
terminate-IsTrail host id target code summary db h = search trail_rules depth 16

created-IsTrail :
    (id : String) (job : Job) (db : SubmissionDb)
    → IsTrail db
    → not (is_some (get id db.submission_jobs)) ≡ true
    → job.state ≡ created
    → let db' = record db { submission_jobs = put id job db.submission_jobs } in
      Ensures TrailKept (get_job id db' >>= λ stored. ok (db', stored))
created-IsTrail id job db h absent state =
    let db' = record db { submission_jobs = put id job db.submission_jobs } in
    Ensures-bind (get_job id db') _ (λ stored _.
      Ensures-ok (db', stored)
        (new-IsTrail id job db h (none_when_absent (get id db.submission_jobs) absent) state))

create_job-IsTrail :
    (host : Host) (source : SourceLocator) (db : SubmissionDb)
    → IsTrail db
    → Ensures TrailKept (create_job host source db)
unfolding create_job
create_job-IsTrail host source db h =
    search (Ensures-on_row, Ensures-require, Ensures-ok, created-IsTrail) depth 12

pub only_tables :
    (P : SubmissionDb → Type 0) (m : Result (SubmissionDb × Job))
    → Ensures (λ (moved : SubmissionDb × Job). P moved.0) m
    → Ensures P (m >>= λ moved. ok moved.0)
only_tables P m h = Ensures-bind m _ (λ moved done. Ensures-ok moved.0 (h.at moved done))

pub run-IsTrail :
    (host : Host) (t : Transaction) (db : SubmissionDb)
    → IsTrail db
    → Ensures IsTrail (run host t db)
unfolding run record_check claim_handoff finish_handoff
run-IsTrail host (Transaction.creation source) db h =
    only_tables IsTrail _ (create_job-IsTrail host source db h)
run-IsTrail host (Transaction.move id expected target evidence updates) db h =
    only_tables IsTrail _ (transition-IsTrail host id expected target evidence updates db h)
run-IsTrail host (Transaction.termination id target code summary) db h =
    only_tables IsTrail _ (terminate-IsTrail host id target code summary db h)
run-IsTrail host (Transaction.check id ordinal checked) db h =
    search (ensures_rules, same-IsTrail) depth 12
run-IsTrail host (Transaction.claim id seal target) db h =
    search (ensures_rules, same-IsTrail) depth 12
run-IsTrail host (Transaction.finish id manifest) db h =
    search (ensures_rules, Ensures-require_some, same-IsTrail) depth 12

commit_keeps :
    (P : SubmissionDb → Type 0) (host : Host) (t : Transaction) (db : SubmissionDb)
    → P db
    → Ensures P (run host t db)
    → P (commit host t db)
unfolding commit
commit_keeps P host t db h kept = outcome (run host t db) refl
  where
    outcome :
        (m : Result SubmissionDb) → run host t db ≡ m → P (elim m [ ok db' ↦ db' | err _ ↦ db ])
    outcome (ok db') done = kept.at db' done
    outcome (err _) raised = h

-- A history of transactions keeps what each of them keeps.
pub commits_induction :
    (P : SubmissionDb → Type 0)
    → ((host : Host) (t : Transaction) (db : SubmissionDb) → P db → Ensures P (run host t db))
    → (host : Host) (ts : List (ℕ × Transaction)) (db : SubmissionDb) → P db
    → P (commits host ts db)
unfolding commits
commits_induction P keeps host [] db h = h
commits_induction P keeps host ((instant, t) ∷ rest) db h =
    commits_induction P keeps host rest (commit at t db)
      (commit_keeps P at t db h (keeps at t db h))
  where
    at : Host
    at = record host { now = instant }

-- Whatever transactions were committed, replaying the rows of submission_transitions of a job from
-- CREATED never meets a row that does not fit the one before, and ends in the state of the job.
pub commits-IsTrail : (host : Host) (ts : List (ℕ × Transaction)) → IsTrail (commits host ts empty)
commits-IsTrail host ts =
    commits_induction IsTrail run-IsTrail host ts empty
      (record { at = λ id. unfold replay get in refl })
