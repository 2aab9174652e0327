-- ===== src/Store/Replays.antt =====
-- Replays: a call that is made again, with the same arguments, after it succeeded.
use tiktok_techjam_recsys_ag.Prelude.{◌≡◌, refl, true, some, String, ◌==◌, string_eq, ==_refl}
use tiktok_techjam_recsys_ag.Prelude.Table.{Table, get, put, get-put_self}
use tiktok_techjam_recsys_ag.Result.{ok}
use tiktok_techjam_recsys_ag.Result.Ensures.{
  Ensures, Ensures-ok, Ensures-require, Ensures-on_row, Ensures-require_some,
}
use tiktok_techjam_recsys_ag.Contracts.{ExperimentState, experiment_state_eq}
use tiktok_techjam_recsys_ag.Control.StateMachine.{experiment_allowed}
use tiktok_techjam_recsys_ag.Store.Documents.{Fields, fields_eq}
use tiktok_techjam_recsys_ag.Store.Schema.{Transition, Db}
use tiktok_techjam_recsys_ag.Store.Events.{Env}
use tiktok_techjam_recsys_ag.Store.Experiments.{same_transition, transition_experiment}

-- The transition stands in the table under its key, and is a legal one.
record Recorded (e : String) (from to : ExperimentState) (payload : Fields) (key : String) (db : Db)
    : Type 0 where
  row : Transition
  found : get key db.transitions ≡ some row
  legal : experiment_allowed from to ≡ true
  same : same_transition e from to row ≡ true
  document : (row.payload_json == payload) ≡ true

Recorded-get :
    (e : String) (from to : ExperimentState) (payload : Fields) (key : String) (db : Db)
    (row : Transition)
    → get key db.transitions ≡ some row
    → experiment_allowed from to ≡ true
    → same_transition e from to row ≡ true
    → (row.payload_json == payload) ≡ true
    → Recorded e from to payload key db
Recorded-get e from to payload key db row h legal same doc = record {
  row = row;
  found = h;
  legal = legal;
  same = same;
  document = doc;
}

Recorded-replay :
    (env : Env) (e : String) (from to : ExperimentState) (payload : Fields) (key : String) (db : Db)
    → Recorded e from to payload key db
    → transition_experiment env e from to payload key db ≡ ok db
unfolding transition_experiment
Recorded-replay env e from to payload key db r = rw (r.legal, r.found, r.same, r.document) refl

-- The row that the first call inserts.
Recorded-put :
    (env : Env) (e : String) (from to : ExperimentState) (payload : Fields) (key : String)
    (t : Table String Transition) (db : Db)
    → db.transitions
      ≡ put key
          (record {
            experiment_id = e;
            from_state = from;
            to_state = to;
            payload_json = payload;
            created_at = env.now;
          })
          t
    → experiment_allowed from to ≡ true
    → Recorded e from to payload key db
Recorded-put env e from to payload key t db h legal =
    let stored : Transition = record {
      experiment_id = e;
      from_state = from;
      to_state = to;
      payload_json = payload;
      created_at = env.now;
    } in
    record {
      row = stored;
      found = rw h (get-put_self key stored t);
      legal = legal;
      same = rw (==_refl e, ==_refl from, ==_refl to) refl;
      document = ==_refl payload;
    }

Recorded-transition :
    (env : Env) (e : String) (from to : ExperimentState) (payload : Fields) (key : String) (db : Db)
    → Ensures (Recorded e from to payload key) (transition_experiment env e from to payload key db)
unfolding transition_experiment
Recorded-transition env e from to payload key db =
    search
      (
        Ensures-ok,
        Ensures-require,
        Ensures-on_row,
        Ensures-require_some,
        Recorded-get,
        Recorded-put env e from to payload key db.transitions,
      )
      depth 16

-- A transition that succeeded can be asked for again, under the same key and at any later instant:
-- the replay succeeds and leaves the whole database as it is.
pub transition_replay :
    (env env' : Env) (e : String) (from to : ExperimentState) (payload : Fields) (key : String)
    (db db' : Db)
    → transition_experiment env e from to payload key db ≡ ok db'
    → transition_experiment env' e from to payload key db' ≡ ok db'
transition_replay env env' e from to payload key db db' h =
    Recorded-replay env' e from to payload key db'
      ((Recorded-transition env e from to payload key db).at db' h)
