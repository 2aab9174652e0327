-- ===== src/Submission/Coordinator/Handed.antt =====
-- What `handoff` of src/rex/submission/coordinator.py has done when it returns.
use mathlib.Core.Path.{subst}
use tiktok_techjam_recsys_ag.Prelude.{
  ◌≡◌, refl, sym, ap, ◌∙◌, inl, inr, Bool, Bool-cases, Option-cases, true, false, not, Option, some,
  List, [], String, ◌==◌, string_eq, option_eq, if◌then◌else◌, eq_of_==, arith,
}
use tiktok_techjam_recsys_ag.Prelude.Table.{get, put, get-put_self}
use tiktok_techjam_recsys_ag.Result.{
  Result, Error, integrity_error, repository_error, ok, err, ◌>>=◌,
}
use tiktok_techjam_recsys_ag.Result.Ensures.{
  Ensures, Ensures-ok, Ensures-err, Ensures-require, Ensures-if, Ensures-require_some,
}
use tiktok_techjam_recsys_ag.Store.Documents.{Fields}
use tiktok_techjam_recsys_ag.Submission.States.{
  SubmissionState, submission_state_eq, handoff_in_progress, handed_off,
}
use tiktok_techjam_recsys_ag.Submission.Schema.{Job, Transition, Handoff, SubmissionDb}
use tiktok_techjam_recsys_ag.Submission.Jobs.{
  Host, has_entered, get_job, insert_transition, transition,
}
use tiktok_techjam_recsys_ag.Submission.Jobs.Columns.{set_columns-state}
use tiktok_techjam_recsys_ag.Submission.Handoffs.{
  Outcome, attempt, get_handoff, finish_handoff, finished_row, close_handoff, complete_handoff,
}
use tiktok_techjam_recsys_ag.Submission.Calls.Aside.{transition-Aside}
use tiktok_techjam_recsys_ag.Submission.Coordinator.{
  same_handoff, copy_handoff, after_authorization, handoff,
}

-- What holds of the tables and of the value when a call returns.
record Returns {A : Type 0} (P : SubmissionDb → A → Type 0) (o : Outcome A) : Type 0 where
  at : (a : A) → o.1 ≡ ok a → P o.0 a

module _ {A : Type 0} {P : SubmissionDb → A → Type 0} where
  Returns-ok : (db : SubmissionDb) (a : A) → P db a → Returns P (db, ok a)
  Returns-ok db a p = record { at = λ b e. let q : a ≡ b = cc in subst (P db) q p }

  Returns-err : (db : SubmissionDb) (e : Error) → Returns P (db, err e)
  Returns-err db e = record { at = λ b p. cc }

  Returns-if :
      (b : Bool) (m n : Outcome A)
      → (b ≡ true → Returns P m)
      → (b ≡ false → Returns P n)
      → Returns P (if b then m else n)
  Returns-if true m n hm hn = hm refl
  Returns-if false m n hm hn = hn refl

module _ {A B : Type 0} {P : SubmissionDb → B → Type 0} where
  Returns-attempt :
      (db : SubmissionDb) (m : Result A) (rest : A → Outcome B)
      → ((a : A) → m ≡ ok a → Returns P (rest a))
      → Returns P (attempt db m rest)
  Returns-attempt db (err e) rest h = Returns-err db e
  Returns-attempt db (ok a) rest h = h a refl

-- The job that `transition` returns is in the target state.
abbrev InState : SubmissionState → SubmissionDb × Job → Type 0
InState target moved = moved.1.state ≡ target

read-InState :
    (id : String) (job : Job) (target : SubmissionState) (row : Transition) (db : SubmissionDb)
    → job.state ≡ target
    → Ensures (InState target) (
        insert_transition row (record db { submission_jobs = put id job db.submission_jobs })
        >>= λ db'. get_job id db' >>= λ stored. ok (db', stored))
unfolding insert_transition get_job
read-InState id job target row db h =
    elim (Bool-cases (has_entered row.job_id row.to_state db.submission_transitions)) [
      | inl entered ↦ rw entered (Ensures-err integrity_error)
      | inr fresh ↦ rw (fresh, get-put_self id job db.submission_jobs) (Ensures-ok _ h)
    ]

named_state : (s t : SubmissionState) → (s == t) ≡ true → s ≡ t
named_state s t h = eq_of_== h

transition-InState :
    (host : Host) (id : String) (expected target : SubmissionState) (evidence : Fields)
    (updates : List (String × Option String)) (db : SubmissionDb)
    → Ensures (InState target) (transition host id expected target evidence updates db)
unfolding transition
transition-InState host id expected target evidence updates db =
    search
      (
        Ensures-ok, Ensures-require, Ensures-if, Ensures-require_some, read-InState, named_state,
        set_columns-state,
      )
      depth 12

-- The job has a handoff of this seal to this target.
abbrev pub HasHandoff : String → String → String → SubmissionDb → Type 0
HasHandoff id target seal db =
    (h : Handoff) × (get id db.submission_handoffs ≡ some h) × (same_handoff seal target h ≡ true)

abbrev pub HandedOff : String → String → String → SubmissionDb → Job → Type 0
HandedOff id target seal db job = (job.state ≡ handed_off) × HasHandoff id target seal db

move-HandedOff :
    (host : Host) (id target seal : String) (evidence : Fields) (db : SubmissionDb)
    (moved : SubmissionDb × Job)
    → HasHandoff id target seal db
    → transition host id handoff_in_progress handed_off evidence [] db ≡ ok moved
    → HandedOff id target seal moved.0 moved.1
move-HandedOff host id target seal evidence db moved has done =
    let state =
      (transition-InState host id handoff_in_progress handed_off evidence [] db).at moved done in
    let aside =
      (transition-Aside host id handoff_in_progress handed_off evidence [] db).at moved done in
    (state, (has.0, ap (λ t. get id t) aside ∙ has.1, has.2))

there-HandedOff :
    (id target seal : String) (db : SubmissionDb) (job : Job)
    → HasHandoff id target seal db
    → (job.state == handed_off) ≡ true
    → HandedOff id target seal db job
there-HandedOff id target seal db job has there = (eq_of_== there, has)

ruleset returns_rules =
    (Returns-ok, Returns-err, Returns-if, Returns-attempt, move-HandedOff, there-HandedOff)

close-HandedOff :
    (host : Host) (id target seal manifest : String) (db : SubmissionDb)
    → HasHandoff id target seal db
    → Returns (HandedOff id target seal) (close_handoff host id manifest db)
unfolding close_handoff
close-HandedOff host id target seal manifest db has = search returns_rules depth 12

finished-HasHandoff :
    (host : Host) (id target seal manifest : String) (db : SubmissionDb) (h : Handoff)
    → get id db.submission_handoffs ≡ some h
    → HasHandoff id target seal db
    → HasHandoff id target seal (record db {
      submission_handoffs = put id (finished_row host manifest h) db.submission_handoffs;
    })
finished-HasHandoff host id target seal manifest db h stored has =
    let q : some has.0 ≡ some h = sym has.1 ∙ stored in
    let r : has.0 ≡ h = cc in
    (
      finished_row host manifest h,
      get-put_self id (finished_row host manifest h) db.submission_handoffs,
      subst (λ k. same_handoff seal target k ≡ true) r has.2,
    )

finish-HasHandoff :
    (host : Host) (id target seal manifest : String) (db db' : SubmissionDb)
    → HasHandoff id target seal db
    → finish_handoff host id manifest db ≡ ok db'
    → HasHandoff id target seal db'
finish-HasHandoff host id target seal manifest db db' has done = kept.at db' done
  where
    kept : Ensures (HasHandoff id target seal) (finish_handoff host id manifest db)
    kept =
        unfold finish_handoff in
        search (Ensures-ok, Ensures-require, Ensures-if, Ensures-require_some, finished-HasHandoff)
          depth 12

complete-HandedOff :
    (host : Host) (id target seal manifest : String) (db : SubmissionDb)
    → HasHandoff id target seal db
    → Returns (HandedOff id target seal) (complete_handoff host id manifest db)
unfolding complete_handoff
complete-HandedOff host id target seal manifest db has =
    Returns-attempt db (finish_handoff host id manifest db) _ (λ db' done.
      close-HandedOff host id target seal manifest db'
        (finish-HasHandoff host id target seal manifest db db' has done))

found-HasHandoff :
    (id target seal : String) (db : SubmissionDb) (h : Handoff)
    → get_handoff id db ≡ ok h
    → not (same_handoff seal target h) ≡ false
    → HasHandoff id target seal db
unfolding get_handoff
found-HasHandoff id target seal db h found same =
    elim (Option-cases (get id db.submission_handoffs)) [
      | inl missing ↦
          let q : err (repository_error "submission job has no handoff") ≡ ok h =
            rw missing at found in
          cc
      | inr (row, stored) ↦
          let q : ok row ≡ ok h = rw stored at found in
          let r : row ≡ h = cc in (row, stored, ground arith)
    ]

module _ (transport : Option String → String → String → Result String) (host : Host) where
  copy-HandedOff :
      (id target seal : String) (db : SubmissionDb) (job : Job)
      → Returns (HandedOff id target seal) (copy_handoff transport host id target seal db job)
  unfolding copy_handoff
  copy-HandedOff id target seal db job =
      search (Returns-err, Returns-if, Returns-attempt, complete-HandedOff, found-HasHandoff) depth
        14

  after-HandedOff :
      (id target seal : String) (o : Outcome Handoff)
      → Returns (HandedOff id target seal) (after_authorization transport host id target seal o)
  after-HandedOff id target seal (db, err raised) = Returns-err db raised
  after-HandedOff id target seal (db, ok _) =
      Returns-attempt db (get_job id db) _ (λ job _. copy-HandedOff id target seal db job)

  -- When `handoff` returns, from any tables and with any transport, the job that it returns is in HANDED_OFF,
  -- and the tables hold a handoff of that job with the seal and the target that were asked for.
  pub handoff-HandedOff :
      (id target seal : String) (db db' : SubmissionDb) (job : Job)
      → handoff transport host id target seal db ≡ (db', ok job)
      → HandedOff id target seal db' job
  handoff-HandedOff id target seal db db' job h =
      subst (λ d. HandedOff id target seal d job) (ap (λ o. o.0) h) (kept.at job (ap (λ o. o.1) h))
    where
      kept : Returns (HandedOff id target seal) (handoff transport host id target seal db)
      kept =
          unfold handoff in
          search
            (
              Returns-ok, Returns-err, Returns-if, Returns-attempt, there-HandedOff,
              found-HasHandoff, copy-HandedOff, after-HandedOff,
            )
            depth 14
