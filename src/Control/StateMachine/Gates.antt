-- ===== src/Control/StateMachine/Gates.antt =====
-- The gates that an experiment passes on its way to promotion.
use tiktok_techjam_recsys_ag.Prelude.{◌≡◌, refl, Bool, true, false, arith}
use tiktok_techjam_recsys_ag.Prelude.Paths.{Steps, here, step, Enters, Enters-gate}
use tiktok_techjam_recsys_ag.Contracts.{
  ExperimentState, proposed, diagnosed, official_valid_complete, confirming, confirmed,
  submission_building, submission_valid, promoted, rejected, abandoned, failed_final,
}
use tiktok_techjam_recsys_ag.Control.StateMachine.{experiment_transitions, experiment_allowed}

abbrev pub ExperimentPath : ExperimentState → ExperimentState → Type 0
ExperimentPath = Steps experiment_allowed

abbrev pub is_promoted : ExperimentState → Bool
is_promoted promoted = true
is_promoted _ = false

-- Official validation is complete, or the submission was checked.
abbrev pub is_promotion_gate : ExperimentState → Bool
is_promotion_gate official_valid_complete = true
is_promotion_gate submission_valid = true
is_promotion_gate _ = false

abbrev is_gated : ExperimentState → Bool
is_gated promoted = true
is_gated s = is_promotion_gate s

gated_entry :
    (t u : ExperimentState)
    → experiment_allowed t u ≡ true
    → is_gated t ≡ false
    → is_gated u ≡ true
    → is_promotion_gate u ≡ true
unfolding experiment_transitions
gated_entry proposed u h o i = ground arith
gated_entry _ u h o i = ground arith

abbrev pub is_diagnosed : ExperimentState → Bool
is_diagnosed diagnosed = true
is_diagnosed _ = false

-- The confirmation leg, from CONFIRMING to SUBMISSION_VALID.
abbrev pub is_confirmation : ExperimentState → Bool
is_confirmation confirming = true
is_confirmation confirmed = true
is_confirmation submission_building = true
is_confirmation submission_valid = true
is_confirmation _ = false

abbrev is_confirmation_or_diagnosed : ExperimentState → Bool
is_confirmation_or_diagnosed diagnosed = true
is_confirmation_or_diagnosed s = is_confirmation s

confirmation_entry :
    (t u : ExperimentState)
    → experiment_allowed t u ≡ true
    → is_confirmation_or_diagnosed t ≡ false
    → is_confirmation_or_diagnosed u ≡ true
    → is_diagnosed u ≡ true
unfolding experiment_transitions
confirmation_entry proposed u h o i = ground arith
confirmation_entry _ u h o i = ground arith

confirmation_inside :
    (u : ExperimentState) → is_confirmation u ≡ true → is_confirmation_or_diagnosed u ≡ true
confirmation_inside u h = ground arith

-- Every legal path from PROPOSED to PROMOTED enters OFFICIAL_VALID_COMPLETE or SUBMISSION_VALID.
pub promoted_gate : (path : ExperimentPath proposed promoted) → Enters is_promotion_gate path
promoted_gate path =
    Enters-gate experiment_allowed is_gated is_promotion_gate gated_entry path refl refl

-- Every legal path from PROPOSED into the confirmation leg (CONFIRMING, CONFIRMED,
-- SUBMISSION_BUILDING, SUBMISSION_VALID) enters DIAGNOSED.
pub confirmation_gate :
    {u : ExperimentState}
    → (path : ExperimentPath proposed u) → is_confirmation u ≡ true
    → Enters is_diagnosed path
confirmation_gate {u} path h =
    Enters-gate experiment_allowed is_confirmation_or_diagnosed is_diagnosed confirmation_entry path
      refl (confirmation_inside u h)

abbrev pub is_terminal : ExperimentState → Bool
is_terminal promoted = true
is_terminal rejected = true
is_terminal abandoned = true
is_terminal failed_final = true
is_terminal _ = false

pub terminal_stuck :
    (t u : ExperimentState) → is_terminal t ≡ true → experiment_allowed t u ≡ true → ⊥
unfolding experiment_transitions
terminal_stuck proposed u h a = ground arith
terminal_stuck _ u h a = ground arith

-- An experiment that is PROMOTED, REJECTED, ABANDONED or FAILED_FINAL stays so on every legal path.
pub experiment_terminal_absorbs :
    {s t : ExperimentState} → ExperimentPath s t → is_terminal s ≡ true → s ≡ t
experiment_terminal_absorbs here h = refl
experiment_terminal_absorbs (step {t = t} {u = u} path a) h =
    absurd (terminal_stuck t u (ground (arith, experiment_terminal_absorbs path h)) a)
