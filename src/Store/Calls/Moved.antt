-- ===== src/Store/Calls/Moved.antt =====
-- How the row of an experiment may change in one call: a legal transition, or none.
use mathlib.Core.Path.{subst}
use tiktok_techjam_recsys_ag.Prelude.{
  ◌≡◌, refl, ◌⊎◌, inl, inr, true, Option, none, some, String, ◌==◌, string_eq, arith, sym, eq_of_==,
}
use tiktok_techjam_recsys_ag.Prelude.Table.{Table, get, put, Related, Related-refl, Related-put}
use tiktok_techjam_recsys_ag.Result.{Result, Error, ◌>>=◌, require_some}
use tiktok_techjam_recsys_ag.Result.Ensures.{Ensures, Ensures-require_some}
use tiktok_techjam_recsys_ag.Contracts.{ExperimentState, proposed, experiment_state_eq}
use tiktok_techjam_recsys_ag.Control.StateMachine.{experiment_allowed}
use tiktok_techjam_recsys_ag.Store.Schema.{Experiment, Db}
use tiktok_techjam_recsys_ag.Store.Finalist.{of_run}

-- What one call may do to one row.
abbrev pub Moved : Option Experiment → Option Experiment → Type 0
Moved none none = Unit
Moved none (some e) = e.state ≡ proposed
Moved (some e) none = ⊥
Moved (some e) (some e') =
    (e'.run_id ≡ e.run_id) × ((e'.state ≡ e.state) ⊎ (experiment_allowed e.state e'.state ≡ true))

abbrev pub Moves : Table String Experiment → Table String Experiment → Type 0
Moves = Related Moved

pub Moved-refl : (o : Option Experiment) → Moved o o
Moved-refl none = tt
Moved-refl (some e) = (refl, inl refl)

pub Moves-refl : (t : Table String Experiment) → Moves t t
Moves-refl t = Related-refl Moved t Moved-refl

-- The row of a new experiment.
pub Moves-new :
    (id : String) (e' : Experiment) (t : Table String Experiment)
    → get id t ≡ none
    → e'.state ≡ proposed
    → Moves t (put id e' t)
Moves-new id e' t h p = Related-put Moved id e' t Moved-refl (rw h p)

-- The row of an experiment whose state is kept.
pub Moves-keep :
    (id : String) (e e' : Experiment) (t : Table String Experiment)
    → get id t ≡ some e
    → e'.run_id ≡ e.run_id
    → e'.state ≡ e.state
    → Moves t (put id e' t)
Moves-keep id e e' t h r p = Related-put Moved id e' t Moved-refl (rw h (r, inl p))

-- The row of an experiment that was checked to be in a state, and goes on to a legal one.
pub Moves-step :
    (id : String) (e e' : Experiment) (from : ExperimentState) (t : Table String Experiment)
    → get id t ≡ some e
    → e'.run_id ≡ e.run_id
    → (e.state == from) ≡ true
    → experiment_allowed from e'.state ≡ true
    → Moves t (put id e' t)
Moves-step id e e' from t h r p a =
    Related-put Moved id e' t Moved-refl
      (rw h (r, inr (subst (λ s. experiment_allowed s e'.state ≡ true) (sym (eq_of_== p)) a)))

get_of_run :
    (run : String) (o : Option Experiment) (e : Experiment) → of_run run o ≡ some e → o ≡ some e
get_of_run run none e h = cc
get_of_run run (some x) e h = ground arith

abbrev pub MovesFrom : Db → Db → Type 0
MovesFrom db db' = Moves db.experiments db'.experiments

-- A run's row with the given id is that experiment's.
pub Ensures-of_run :
    {A : Type 0} {P : A → Type 0} (run : String) (o : Option Experiment) (x : Error)
    (f : Experiment → Result A)
    → ((e : Experiment) → o ≡ some e → Ensures P (f e))
    → Ensures P (require_some (of_run run o) x >>= f)
Ensures-of_run run o x f h =
    Ensures-require_some (of_run run o) x f (λ e found. h e (get_of_run run o e found))
