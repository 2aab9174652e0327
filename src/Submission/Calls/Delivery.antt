-- ===== src/Submission/Calls/Delivery.antt =====
-- A handoff from `authorize_handoff` to `complete_handoff` of src/rex/submission/repository.py.
use tiktok_techjam_recsys_ag.Prelude.{
  ◌≡◌, refl, sym, ap, ◌∙◌, true, false, none, some, [], ◌∷◌, ◌++◌, String, ◌==◌, string_eq,
  option_eq, ==_refl,
}
use tiktok_techjam_recsys_ag.Prelude.Table.{get, put, get-put_self}
use tiktok_techjam_recsys_ag.Result.{ok}
use tiktok_techjam_recsys_ag.Store.Documents.{Fields, end, field, text}
use tiktok_techjam_recsys_ag.Submission.States.{
  SubmissionState, submission_state_eq, SubmissionState-discrete, next_states, is_next,
  ready_for_handoff, handoff_in_progress, handed_off,
}
use tiktok_techjam_recsys_ag.Submission.Schema.{Job, Transition, complete, SubmissionDb}
use tiktok_techjam_recsys_ag.Submission.Jobs.{Host, insert_transition, get_job, transition}
use tiktok_techjam_recsys_ag.Submission.Jobs.Columns.{set_columns}
use tiktok_techjam_recsys_ag.Submission.Handoffs.{
  is_claimed, claim_handoff, claim_row, finished_row, start_handoff, authorize_handoff,
  finish_handoff, close_handoff, complete_handoff,
}
use tiktok_techjam_recsys_ag.Submission.Calls.Trail.{is_legal, IsTrail}
use tiktok_techjam_recsys_ag.Submission.Calls.Replayed.{same-IsTrail, moved-IsTrail}
use tiktok_techjam_recsys_ag.Submission.Calls.Accepted.{fresh_state}

abbrev moved_job : Host → SubmissionState → Job → Job
moved_job host target job = record job { state = target; updated_at = host.now }

abbrev move_row : Host → String → SubmissionState → SubmissionState → Fields → Transition
move_row host id expected target evidence = record {
  job_id = id;
  from_state = expected;
  to_state = target;
  evidence_json = evidence;
  created_at = host.now;
}

-- The tables after a move without further updates.
abbrev moved :
    Host → String → SubmissionState → SubmissionState → Fields → Job → SubmissionDb → SubmissionDb
moved host id expected target evidence job db = record db {
  submission_jobs = put id (moved_job host target job) db.submission_jobs;
  submission_transitions =
      db.submission_transitions ++ move_row host id expected target evidence ∷ [];
}

transition_moves :
    (host : Host) (id : String) (expected target : SubmissionState) (evidence : Fields) (job : Job)
    (db : SubmissionDb)
    → IsTrail db
    → get id db.submission_jobs ≡ some job
    → job.state ≡ expected
    → is_next expected target ≡ true
    → (expected == target) ≡ false
    → transition host id expected target evidence [] db
      ≡ ok (moved host id expected target evidence job db, moved_job host target job)
unfolding transition insert_transition get_job set_columns
transition_moves host id expected target evidence job db h stored state next apart =
    let legal : is_legal job.state target ≡ true = rw (state, next) refl in
    let fresh = fresh_state id job target db h stored legal in
    rw
      (
        next,
        stored,
        state,
        apart,
        ==_refl expected,
        fresh,
        get-put_self id (moved_job host target job) db.submission_jobs,
      )
      refl

abbrev claimed : Host → String → String → String → SubmissionDb → SubmissionDb
claimed host id seal target db = record db {
  submission_handoffs = put id (claim_row host seal target) db.submission_handoffs;
}

module _ (host : Host) (id seal target manifest : String) (job : Job) (db : SubmissionDb)
    (trail : IsTrail db) (stored : get id db.submission_jobs ≡ some job)
    (ready : job.state ≡ ready_for_handoff) (seals : job.seal_sha256 ≡ some seal)
    (unclaimed : get id db.submission_handoffs ≡ none) (free : is_claimed target db ≡ false) where
  abbrev given : Fields
  given = field "seal_sha256" (text seal) (field "target_path" (text target) end)

  abbrev in_progress : SubmissionDb
  in_progress =
      moved host id ready_for_handoff handoff_in_progress given job (claimed host id seal target db)

  claim_lem : claim_handoff host id seal target db ≡ ok (claimed host id seal target db)
  unfolding claim_handoff
  claim_lem = rw (unclaimed, stored, free) refl

  start_lem : (start_handoff host id seal target (claimed host id seal target db)).0 ≡ in_progress
  unfolding start_handoff get_job next_states SubmissionState-discrete
  start_lem =
      let moves =
        transition_moves host id ready_for_handoff handoff_in_progress given job
          (claimed host id seal target db)
          (same-IsTrail db (claimed host id seal target db) trail refl refl) stored ready refl
          refl in
      rw (stored, ready, moves) refl

  authorize_starts :
      authorize_handoff host id seal target db
      ≡ start_handoff host id seal target (claimed host id seal target db)
  unfolding authorize_handoff get_job SubmissionState-discrete
  authorize_starts = rw (stored, ready, seals, ==_refl (some seal), claim_lem) refl

  authorize_lem : (authorize_handoff host id seal target db).0 ≡ in_progress
  authorize_lem = ap (λ o. o.0) authorize_starts ∙ start_lem

  in_progress-IsTrail : IsTrail in_progress
  unfolding next_states SubmissionState-discrete
  in_progress-IsTrail =
      moved-IsTrail id job (moved_job host handoff_in_progress job)
        (move_row host id ready_for_handoff handoff_in_progress given)
        (claimed host id seal target db)
        (same-IsTrail db (claimed host id seal target db) trail refl refl) stored refl (sym ready)
        (rw ready refl) refl

  abbrev finished : SubmissionDb
  finished = record in_progress {
    submission_handoffs =
        put id (finished_row host manifest (claim_row host seal target))
          in_progress.submission_handoffs;
  }

  finish_lem : finish_handoff host id manifest in_progress ≡ ok finished
  unfolding finish_handoff
  finish_lem = rw (get-put_self id (claim_row host seal target) db.submission_handoffs) refl

  abbrev closed : SubmissionDb
  closed =
      moved host id handoff_in_progress handed_off
        (field "target_manifest_sha256" (text manifest) end)
        (moved_job host handoff_in_progress job) finished

  close_lem : (close_handoff host id manifest finished).0 ≡ closed
  unfolding close_handoff get_job next_states SubmissionState-discrete
  close_lem =
      let kept = get-put_self id (moved_job host handoff_in_progress job) db.submission_jobs in
      let moves =
        transition_moves host id handoff_in_progress handed_off
          (field "target_manifest_sha256" (text manifest) end)
          (moved_job host handoff_in_progress job) finished
          (same-IsTrail in_progress finished in_progress-IsTrail refl refl) kept refl refl refl in
      rw (kept, moves) refl

  complete_lem : (complete_handoff host id manifest in_progress).0 ≡ closed
  unfolding complete_handoff
  complete_lem = rw finish_lem close_lem

  -- In tables whose transitions replay, take a sealed job in READY_FOR_HANDOFF without a handoff, and a
  -- target that no job has claimed. Authorizing the handoff with the seal of the job and then completing
  -- it leaves the job in HANDED_OFF, otherwise as it was but for its time, and a COMPLETE handoff of
  -- that seal, target and manifest.
  pub handoff_delivers :
      let db' =
        (complete_handoff host id manifest (authorize_handoff host id seal target db).0).0 in
      (get id db'.submission_jobs ≡ some (record job { state = handed_off; updated_at = host.now }))
      × (get id db'.submission_handoffs
          ≡ some (record {
            authorized_seal_sha256 = seal;
            target_path = target;
            target_manifest_sha256 = some manifest;
            status = complete;
            authorized_at = host.now;
            completed_at = some host.now;
          }))
  handoff_delivers = rw (authorize_lem, complete_lem) (get-put_self _ _ _, get-put_self _ _ _)
