-- ===== src/Submission/Calls/Accepted.antt =====
-- Which calls of `transition` and `terminate` of src/rex/submission/repository.py return, and which raise.
use tiktok_techjam_recsys_ag.Prelude.{
  ◌≡◌, refl, ap, ◌∙◌, inl, inr, Bool, true, false, not, ◌&&◌, ◌||◌, Option, none, some, List,
  String, ◌==◌, string_eq, all, Bool-cases, Option-cases, arith,
}
use tiktok_techjam_recsys_ag.Prelude.Table.{get, put, get-put_self}
use tiktok_techjam_recsys_ag.Result.{ok, ◌>>=◌, is_ok}
use tiktok_techjam_recsys_ag.Store.Documents.{Fields}
use tiktok_techjam_recsys_ag.Submission.States.{
  SubmissionState, submission_state_eq, created, is_next, is_failure, is_final,
}
use tiktok_techjam_recsys_ag.Submission.Schema.{Job, Transition, SubmissionDb}
use tiktok_techjam_recsys_ag.Submission.Jobs.{
  Host, has_entered, insert_transition, get_job, transition, terminate,
}
use tiktok_techjam_recsys_ag.Submission.Jobs.Columns.{is_update_column, set_columns}
use tiktok_techjam_recsys_ag.Submission.Calls.Trail.{
  is_legal, state_of, IsTrail, legal-rank, entered-rank, step_is_legal, stop_is_legal,
}

-- In tables whose transitions replay, a job has not yet entered the state of a legal move.
pub fresh_state :
    (id : String) (job : Job) (target : SubmissionState) (db : SubmissionDb)
    → IsTrail db
    → get id db.submission_jobs ≡ some job
    → is_legal job.state target ≡ true
    → has_entered id target db.submission_transitions ≡ false
fresh_state id job target db h stored legal =
    elim (Bool-cases (has_entered id target db.submission_transitions)) [
      | inr fresh ↦ fresh
      | inl entered ↦
          let replayed = h.at id ∙ ap (λ o. some (state_of o)) stored in
          let above = legal-rank job.state target legal in
          let below =
            entered-rank id db.submission_transitions created job.state target replayed entered in
          let impossible : ⊥ = omega (arith, above, below) in elim impossible [ ]
    ]

-- A move to such a state is written, and the job read again.
entry_returns :
    (id : String) (job' : Job) (row : Transition) (db : SubmissionDb)
    → row.job_id ≡ id
    → has_entered id row.to_state db.submission_transitions ≡ false
    → is_ok {A = SubmissionDb × Job} (
        insert_transition row (record db { submission_jobs = put id job' db.submission_jobs })
        >>= λ db'. get_job id db' >>= λ stored. ok (db', stored))
      ≡ true
unfolding insert_transition get_job
entry_returns id job' row db owner fresh =
    rw (owner, fresh, get-put_self id job' db.submission_jobs) refl

-- The job is there, and is in one of the states.
abbrev pub is_in : Option Job → SubmissionState → SubmissionState → Bool
is_in none s t = false
is_in (some job) s t = job.state == t || job.state == s

abbrev pub is_going : Option Job → Bool
is_going none = false
is_going (some job) = not (is_final job.state)

-- In the tables that transactions leave, `transition` returns exactly when the target follows the
-- expected state, every column to update is known, and the job is in the target state already or in the
-- expected one; in particular UNIQUE(job_id, to_state) never fails.
pub transition_returns :
    (host : Host) (id : String) (expected target : SubmissionState) (evidence : Fields)
    (updates : List (String × Option String)) (db : SubmissionDb)
    → IsTrail db
    → is_ok (transition host id expected target evidence updates db) ≡ (
        is_next expected target
        && all (λ u. is_update_column u.0) updates
        && is_in (get id db.submission_jobs) expected target)
unfolding transition
transition_returns host id expected target evidence updates db h =
    elim (Bool-cases (is_next expected target)) [
      | inr illegal ↦ rw illegal refl
      | inl next ↦ elim (Bool-cases (all (λ u. is_update_column u.0) updates)) [
        | inr unknown ↦ rw (next, unknown) refl
        | inl known ↦ elim (Option-cases (get id db.submission_jobs)) [
          | inl missing ↦ rw (next, known, missing) refl
          | inr (job, stored) ↦ elim (Bool-cases (job.state == target)) [
            | inl there ↦ rw (next, known, stored, there) refl
            | inr apart ↦ elim (Bool-cases (job.state == expected)) [
              | inr other ↦ rw (next, known, stored, apart, other) refl
              | inl same ↦
                  let legal = step_is_legal job.state expected target next same in
                  rw (next, known, stored, apart, same)
                    (entry_returns id
                      (set_columns updates (record job { state = target; updated_at = host.now }))
                      (record {
                        job_id = id;
                        from_state = expected;
                        to_state = target;
                        evidence_json = evidence;
                        created_at = host.now;
                      })
                      db refl (fresh_state id job target db h stored legal))
            ]
          ]
        ]
      ]
    ]

-- In tables whose transitions replay, terminate returns exactly when its target is REJECTED or
-- FAILED and the job is there and not in a final state.
pub terminate_returns :
    (host : Host) (id : String) (target : SubmissionState) (code summary : String)
    (db : SubmissionDb)
    → IsTrail db
    → is_ok (terminate host id target code summary db)
      ≡ (is_failure target && is_going (get id db.submission_jobs))
unfolding terminate
terminate_returns host id target code summary db h = elim (Bool-cases (is_failure target)) [
  | inr other ↦ rw other refl
  | inl fails ↦ elim (Option-cases (get id db.submission_jobs)) [
    | inl missing ↦ rw (fails, missing) refl
    | inr (job, stored) ↦ elim (Bool-cases (is_final job.state)) [
      | inl final ↦ rw (fails, stored, final) refl
      | inr going ↦
          let legal = stop_is_legal job.state target fails (rw going refl) in
          rw (fails, stored, going)
            (entry_returns id _ _ db refl (fresh_state id job target db h stored legal))
    ]
  ]
]
