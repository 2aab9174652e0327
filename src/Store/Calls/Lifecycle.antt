-- ===== src/Store/Calls/Lifecycle.antt =====
-- The lifecycle of the experiments over a whole history of calls.
use mathlib.Core.Path.{subst}
use tiktok_techjam_recsys_ag.Prelude.{
  ℕ, ◌≡◌, sym, inl, inr, true, Option, none, some, List, String, string_eq,
}
use tiktok_techjam_recsys_ag.Prelude.Paths.{here, step}
use tiktok_techjam_recsys_ag.Prelude.Table.{get}
use tiktok_techjam_recsys_ag.Contracts.{ExperimentState, proposed}
use tiktok_techjam_recsys_ag.Control.StateMachine.{experiment_allowed}
use tiktok_techjam_recsys_ag.Control.StateMachine.Gates.{
  ExperimentPath, is_terminal, terminal_stuck,
}
use tiktok_techjam_recsys_ag.Store.Schema.{Experiment, Db}
use tiktok_techjam_recsys_ag.Store.Events.{Env}
use tiktok_techjam_recsys_ag.Store.Calls.{Call, history, empty, history_induction}
use tiktok_techjam_recsys_ag.Store.Calls.Moved.{Moved}
use tiktok_techjam_recsys_ag.Store.Calls.Moves.{perform-Moves}

-- A row whose state is reached from PROPOSED by legal transitions; a missing row passes.
abbrev pub IsReachable : Option Experiment → Type 0
IsReachable none = Unit
IsReachable (some e) = ExperimentPath proposed e.state

-- The row is there, and in this state.
abbrev pub InState : ExperimentState → Option Experiment → Type 0
InState s none = ⊥
InState s (some e) = e.state ≡ s

Moved-IsReachable : (o o' : Option Experiment) → Moved o o' → IsReachable o → IsReachable o'
Moved-IsReachable none none m h = tt
Moved-IsReachable none (some e) m h = subst (ExperimentPath proposed) (sym m) here
Moved-IsReachable (some e) none m h = absurd m
Moved-IsReachable (some e) (some e') (_, inl kept) h = subst (ExperimentPath proposed) (sym kept) h
Moved-IsReachable (some e) (some e') (_, inr legal) h = step h legal

Moved-InState :
    (s : ExperimentState) (o o' : Option Experiment)
    → is_terminal s ≡ true
    → Moved o o'
    → InState s o
    → InState s o'
Moved-InState s none o' t m h = absurd h
Moved-InState s (some e) none t m h = absurd m
Moved-InState s (some e) (some e') t (_, inl kept) h = cc
Moved-InState s (some e) (some e') t (_, inr legal) h =
    absurd (terminal_stuck s e'.state t (subst (λ x. experiment_allowed x e'.state ≡ true) h legal))

-- After any history of calls on the empty database, failed and repeated calls included, every
-- experiment that is stored has reached its state from PROPOSED by legal transitions.
pub history-IsReachable :
    (env : Env) (calls : List (ℕ × Call)) (id : String)
    → IsReachable (get id (history env calls empty).experiments)
history-IsReachable env calls id =
    history_induction env (λ db. IsReachable (get id db.experiments))
      (λ instant call db h. record {
        at = λ db' done.
            Moved-IsReachable (get id db.experiments) (get id db'.experiments)
              (((perform-Moves (record env { now = instant }) call db).at db' done).at id) h;
      })
      calls empty (unfold empty get in tt)

-- Whatever calls follow, an experiment that is stored as PROMOTED, REJECTED, ABANDONED or
-- FAILED_FINAL stays stored, in that state.
pub history_keeps_terminal :
    (env : Env) (calls : List (ℕ × Call)) (id : String) (s : ExperimentState) (db : Db)
    → is_terminal s ≡ true
    → InState s (get id db.experiments)
    → InState s (get id (history env calls db).experiments)
history_keeps_terminal env calls id s db t =
    history_induction env (λ x. InState s (get id x.experiments))
      (λ instant call x h. record {
        at = λ x' done.
            Moved-InState s (get id x.experiments) (get id x'.experiments) t
              (((perform-Moves (record env { now = instant }) call x).at x' done).at id) h;
      })
      calls db
