-- ===== src/Control/StateMachine/Runs.antt =====
-- The paths of a run through its lifecycle.
use tiktok_techjam_recsys_ag.Prelude.{◌≡◌, refl, Bool, true, false, arith}
use tiktok_techjam_recsys_ag.Prelude.Paths.{Steps, here, step, Enters, Enters-gate}
use tiktok_techjam_recsys_ag.Contracts.{
  RunState, initializing, baseline_verifying, searching, finalizing, complete, baseline_blocked,
  budget_exhausted, fatal,
}
use tiktok_techjam_recsys_ag.Control.StateMachine.{run_transitions, run_allowed}

abbrev pub RunPath : RunState → RunState → Type 0
RunPath = Steps run_allowed

abbrev pub is_state : RunState → RunState → Bool
is_state initializing initializing = true
is_state baseline_verifying baseline_verifying = true
is_state searching searching = true
is_state finalizing finalizing = true
is_state complete complete = true
is_state baseline_blocked baseline_blocked = true
is_state budget_exhausted budget_exhausted = true
is_state fatal fatal = true
is_state _ _ = false

abbrev is_search : RunState → Bool
is_search searching = true
is_search finalizing = true
is_search complete = true
is_search budget_exhausted = true
is_search _ = false

abbrev is_end : RunState → Bool
is_end finalizing = true
is_end complete = true
is_end _ = false

search_entry :
    (t u : RunState)
    → run_allowed t u ≡ true
    → is_search t ≡ false
    → is_search u ≡ true
    → is_state searching u ≡ true
unfolding run_transitions
search_entry initializing u h o i = ground arith
search_entry _ u h o i = ground arith

end_entry :
    (t u : RunState)
    → run_allowed t u ≡ true
    → is_end t ≡ false
    → is_end u ≡ true
    → is_state finalizing u ≡ true
unfolding run_transitions
end_entry initializing u h o i = ground arith
end_entry _ u h o i = ground arith

-- Every sequence of legal run transitions from INITIALIZING to COMPLETE enters SEARCHING and
-- FINALIZING on its way.
pub complete_gates :
    (path : RunPath initializing complete)
    → Enters (is_state searching) path × Enters (is_state finalizing) path
complete_gates path = (
  Enters-gate run_allowed is_search (is_state searching) search_entry path refl refl,
  Enters-gate run_allowed is_end (is_state finalizing) end_entry path refl refl,
)

abbrev pub is_terminal : RunState → Bool
is_terminal complete = true
is_terminal baseline_blocked = true
is_terminal fatal = true
is_terminal _ = false

terminal_stuck : (t u : RunState) → is_terminal t ≡ true → run_allowed t u ≡ true → ⊥
unfolding run_transitions
terminal_stuck initializing u h a = ground arith
terminal_stuck _ u h a = ground arith

-- A run that is COMPLETE, BASELINE_BLOCKED or FATAL stays where it is, whatever legal transitions
-- are asked for.
pub run_terminal_absorbs : {s t : RunState} → RunPath s t → is_terminal s ≡ true → s ≡ t
run_terminal_absorbs here h = refl
run_terminal_absorbs (step {t = t} {u = u} path a) h =
    absurd (terminal_stuck t u (ground (arith, run_terminal_absorbs path h)) a)
