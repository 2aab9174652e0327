-- ===== src/Submission/States.antt =====
-- src/rex/submission/repository.py: the states of a submission job and `_NEXT`.
use tiktok_techjam_recsys_ag.Prelude.{Bool, List, [], ◌∷◌, contains, Eq}

pub data SubmissionState : Type 0 where
  created source_verified worktree_ready predicting predicted csv_built first_check_valid staging
        second_check_valid sealed ready_for_handoff handoff_in_progress handed_off rejected failed :
      SubmissionState

unfoldable pub SubmissionState-discrete : Discrete SubmissionState
SubmissionState-discrete = hlevel

instance abbrev pub submission_state_eq : Eq SubmissionState
submission_state_eq = record { dec = SubmissionState-discrete }

-- _NEXT; a set is a list of its members.
unfoldable pub next_states : SubmissionState → List SubmissionState
next_states created = source_verified ∷ []
next_states source_verified = worktree_ready ∷ []
next_states worktree_ready = predicting ∷ []
next_states predicting = predicted ∷ []
next_states predicted = csv_built ∷ []
next_states csv_built = first_check_valid ∷ []
next_states first_check_valid = staging ∷ []
next_states staging = second_check_valid ∷ []
next_states second_check_valid = sealed ∷ []
next_states sealed = ready_for_handoff ∷ []
next_states ready_for_handoff = handoff_in_progress ∷ []
next_states handoff_in_progress = handed_off ∷ []
next_states handed_off = []
next_states rejected = []
next_states failed = []

abbrev pub is_next : SubmissionState → SubmissionState → Bool
is_next expected target = contains target (next_states expected)

-- The states that `terminate` may enter, and those that it may not leave.
abbrev pub is_failure : SubmissionState → Bool
is_failure state = contains state (rejected ∷ failed ∷ [])

abbrev pub is_final : SubmissionState → Bool
is_final state = contains state (handed_off ∷ rejected ∷ failed ∷ [])
