-- ===== src/Submission/Calls/Trail.antt =====
-- The rows of submission_transitions against the states of the jobs, for src/rex/submission/repository.py.
use tiktok_techjam_recsys_ag.Prelude.{
  ℕ, ◌≡◌, ◌≤◌, ◌<◌, suc, refl, sym, ap, inl, inr, Bool, true, false, not, ◌&&◌, ◌||◌, Option, none,
  some, List, [], ◌∷◌, ◌++◌, String, ◌==◌, string_eq, contains, if◌then◌else◌, Bool-cases,
  Option-cases, eq_of_==, arith,
}
use tiktok_techjam_recsys_ag.Prelude.Table.{get}
use tiktok_techjam_recsys_ag.Submission.States.{
  SubmissionState, submission_state_eq, SubmissionState-discrete, created, source_verified,
  worktree_ready, predicting, predicted, csv_built, first_check_valid, staging, second_check_valid,
  sealed, ready_for_handoff, handoff_in_progress, handed_off, rejected, failed, is_next, is_failure,
  is_final, next_states,
}
use tiktok_techjam_recsys_ag.Submission.Schema.{Job, Transition, SubmissionDb}
use tiktok_techjam_recsys_ag.Submission.Jobs.{has_entered}

-- A move that `transition` or `terminate` makes.
abbrev pub is_legal : SubmissionState → SubmissionState → Bool
is_legal s t = is_next s t || (is_failure t && not (is_final s))

pub step_is_legal :
    (s e t : SubmissionState) → is_next e t ≡ true → (s == e) ≡ true → is_legal s t ≡ true
step_is_legal s e t h same = let q : s ≡ e = eq_of_== same in rw (q, h) refl

pub stop_is_legal :
    (s t : SubmissionState) → is_failure t ≡ true → not (is_final s) ≡ true → is_legal s t ≡ true
stop_is_legal s t h k = ground arith

-- The state after a row of submission_transitions; `none` when the row does not fit.
abbrev pub advance : String → Transition → Option SubmissionState → Option SubmissionState
advance id row none = none
advance id row (some s) =
    if row.job_id == id
    then (if row.from_state == s && is_legal s row.to_state then some row.to_state else none)
    else some s

unfoldable pub replay : String → Option SubmissionState → List Transition → Option SubmissionState
replay id s [] = s
replay id s (row ∷ rows) = replay id (advance id row s) rows

-- The state of a job; before its creation, the first one.
abbrev pub state_of : Option Job → SubmissionState
state_of none = created
state_of (some job) = job.state

-- Replaying the rows of a job gives its state.
pub record IsTrail (db : SubmissionDb) : Type 0 where
  pub at :
      (id : String)
      → replay id (some created) db.submission_transitions
        ≡ some (state_of (get id db.submission_jobs))

-- The position of a state on the way to the final ones.
abbrev pub rank : SubmissionState → ℕ
rank created = 0
rank source_verified = 1
rank worktree_ready = 2
rank predicting = 3
rank predicted = 4
rank csv_built = 5
rank first_check_valid = 6
rank staging = 7
rank second_check_valid = 8
rank sealed = 9
rank ready_for_handoff = 10
rank handoff_in_progress = 11
rank handed_off = 12
rank rejected = 13
rank failed = 13

next_lem : (x t : SubmissionState) → contains t (x ∷ []) ≡ true → x ≡ t
next_lem x t h = elim (Bool-cases (x == t)) [ inl same ↦ eq_of_== same | inr other ↦ cc ]

next-rank : (s t : SubmissionState) → is_next s t ≡ true → rank t ≡ suc (rank s)
unfolding next_states
next-rank created t h = sym (ap rank (next_lem source_verified t h))
next-rank source_verified t h = sym (ap rank (next_lem worktree_ready t h))
next-rank worktree_ready t h = sym (ap rank (next_lem predicting t h))
next-rank predicting t h = sym (ap rank (next_lem predicted t h))
next-rank predicted t h = sym (ap rank (next_lem csv_built t h))
next-rank csv_built t h = sym (ap rank (next_lem first_check_valid t h))
next-rank first_check_valid t h = sym (ap rank (next_lem staging t h))
next-rank staging t h = sym (ap rank (next_lem second_check_valid t h))
next-rank second_check_valid t h = sym (ap rank (next_lem sealed t h))
next-rank sealed t h = sym (ap rank (next_lem ready_for_handoff t h))
next-rank ready_for_handoff t h = sym (ap rank (next_lem handoff_in_progress t h))
next-rank handoff_in_progress t h = sym (ap rank (next_lem handed_off t h))
next-rank handed_off t h = cc
next-rank rejected t h = cc
next-rank failed t h = cc

failure-rank : (t : SubmissionState) → is_failure t ≡ true → rank t ≡ 13
failure-rank t h = elim (Bool-cases (rejected == t)) [
  | inl same ↦ sym (ap rank (eq_of_== same))
  | inr other ↦ sym (ap rank (next_lem failed t (cc)))
]

open-rank : (s : SubmissionState) → is_final s ≡ false → rank s < 12
unfolding SubmissionState-discrete
open-rank created h = omega arith
open-rank source_verified h = omega arith
open-rank worktree_ready h = omega arith
open-rank predicting h = omega arith
open-rank predicted h = omega arith
open-rank csv_built h = omega arith
open-rank first_check_valid h = omega arith
open-rank staging h = omega arith
open-rank second_check_valid h = omega arith
open-rank sealed h = omega arith
open-rank ready_for_handoff h = omega arith
open-rank handoff_in_progress h = omega arith
open-rank handed_off h = cc
open-rank rejected h = cc
open-rank failed h = cc

pub legal-rank : (s t : SubmissionState) → is_legal s t ≡ true → rank s < rank t
legal-rank s t h = elim (Bool-cases (is_next s t)) [
  | inl next ↦ omega (arith, next-rank s t next)
  | inr other ↦ elim (Bool-cases (is_failure t)) [
    | inl fails ↦ elim (Bool-cases (is_final s)) [
      | inl final ↦ cc
      | inr going ↦ omega (arith, failure-rank t fails, open-rank s going)
    ]
    | inr kept ↦ cc
  ]
]

replay-none : (id : String) (rows : List Transition) → replay id none rows ≡ none
unfolding replay
replay-none id [] = refl
replay-none id (row ∷ rows) = replay-none id rows

pub replay-append :
    (id : String) (s : Option SubmissionState) (rows : List Transition) (row : Transition)
    → replay id s (rows ++ row ∷ []) ≡ advance id row (replay id s rows)
unfolding replay
replay-append id s [] row = refl
replay-append id s (r ∷ rows) row = replay-append id (advance id r s) rows row

fitting :
    (from to s f : SubmissionState)
    → (if from == s && is_legal s to then some to else none) ≡ some f
    → (f ≡ to) × (rank s < rank f)
fitting from to s f h = elim (Bool-cases (from == s)) [
  | inl same ↦ elim (Bool-cases (is_legal s to)) [
    | inl legal ↦ let q : to ≡ f = cc in (sym q, rw (← q) (legal-rank s to legal))
    | inr illegal ↦ cc
  ]
  | inr other ↦ cc
]

advance-rank :
    (id : String) (row : Transition) (s f : SubmissionState)
    → advance id row (some s) ≡ some f
    → rank s ≤ rank f
advance-rank id row s f h = elim (Bool-cases (row.job_id == id)) [
  | inr other ↦ let q : s ≡ f = cc in rw q (omega arith)
  | inl same ↦ omega (arith, (fitting row.from_state row.to_state s f cc).1)
]

advance-enters :
    (id : String) (row : Transition) (s f t : SubmissionState)
    → advance id row (some s) ≡ some f
    → (row.job_id == id && row.to_state == t) ≡ true
    → rank t ≤ rank f
advance-enters id row s f t h e = elim (Bool-cases (row.job_id == id)) [
  | inr other ↦ cc
  | inl same ↦
      let q : f ≡ row.to_state = (fitting row.from_state row.to_state s f cc).0 in
      let p : row.to_state ≡ t = eq_of_== cc in rw (q, p) (omega arith)
]

replay-rank :
    (id : String) (rows : List Transition) (s f : SubmissionState)
    → replay id (some s) rows ≡ some f
    → rank s ≤ rank f
unfolding replay
replay-rank id [] s f h = let q : s ≡ f = cc in rw q (omega arith)
replay-rank id (row ∷ rows) s f h = elim (Option-cases (advance id row (some s))) [
  | inl none_left ↦
      let q : replay id none rows ≡ some f = rw none_left at h in cc (replay-none id rows)
  | inr (t, moved) ↦
      omega (arith, advance-rank id row s t moved, replay-rank id rows t f (rw moved at h))
]

-- A job has entered no state beyond its own.
pub entered-rank :
    (id : String) (rows : List Transition) (s f t : SubmissionState)
    → replay id (some s) rows ≡ some f
    → has_entered id t rows ≡ true
    → rank t ≤ rank f
unfolding replay
entered-rank id [] s f t h e = cc
entered-rank id (row ∷ rows) s f t h e = elim (Option-cases (advance id row (some s))) [
  | inl none_left ↦
      let q : replay id none rows ≡ some f = rw none_left at h in cc (replay-none id rows)
  | inr (u, moved) ↦ elim (Bool-cases (row.job_id == id && row.to_state == t)) [
    | inl this ↦
        omega
          (arith, advance-enters id row s u t moved this, replay-rank id rows u f (rw moved at h))
    | inr other ↦ entered-rank id rows u f t (rw moved at h) cc
  ]
]
