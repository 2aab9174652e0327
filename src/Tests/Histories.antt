-- ===== src/Tests/Histories.antt =====
-- Concrete databases and calls of src/rex/store/repository.py.
use tiktok_techjam_recsys_ag.Prelude.{
  ℕ, ◌≡◌, refl, none, some, List, [], ◌∷◌, is_some, String-discrete, Option-discrete, string_eq,
}
use tiktok_techjam_recsys_ag.Prelude.Int.{pos}
use tiktok_techjam_recsys_ag.Prelude.Decimal.{Float}
use tiktok_techjam_recsys_ag.Prelude.Table.{get}
use tiktok_techjam_recsys_ag.Result.{Result, ok}
use tiktok_techjam_recsys_ag.Result.Ensures.{Ensures}
use tiktok_techjam_recsys_ag.Contracts.{
  ExperimentState, RunState, finalist_locked, ValidationPhase-discrete, AttemptStatus,
  ExperimentState-discrete, repair,
}
use tiktok_techjam_recsys_ag.Control.StateMachine.{experiment_transitions}
use tiktok_techjam_recsys_ag.Store.Documents.{end}
use tiktok_techjam_recsys_ag.Store.Schema.{Run, Experiment, MetricKey-discrete, metric_key_eq, Db}
use tiktok_techjam_recsys_ag.Store.Events.{Env, last_hash, export_events, verify_event_chain}
use tiktok_techjam_recsys_ag.Store.Runs.{RunSpec, Metrics}
use tiktok_techjam_recsys_ag.Store.Experiments.{Proposal, Provenance, transition_experiment}
use tiktok_techjam_recsys_ag.Store.Measurements.{key_of, record_metrics}
use tiktok_techjam_recsys_ag.Store.Measurements.Official.{Admits, record_metrics-Admits}
use tiktok_techjam_recsys_ag.Store.Repairs.{reserve_experiment_repair}
use tiktok_techjam_recsys_ag.Store.Repairs.Limit.{Reserved, reserve_repair-Reserved}
use tiktok_techjam_recsys_ag.Store.Replays.{transition_replay}
use tiktok_techjam_recsys_ag.Store.Calls.{Call, perform, transact, history, empty}
use tiktok_techjam_recsys_ag.Store.Calls.Chained.{history-verifies}
use tiktok_techjam_recsys_ag.Store.Calls.Moved.{Moves}
use tiktok_techjam_recsys_ag.Store.Calls.Moves.{perform-Moves}
use tiktok_techjam_recsys_ag.Store.Calls.Advances.{Advanced}
use tiktok_techjam_recsys_ag.Store.Calls.Phases.{history-Advanced}
use tiktok_techjam_recsys_ag.Store.Calls.Lifecycle.{
  IsReachable, InState, history-IsReachable, history_keeps_terminal,
}

abbrev half : Float
half = record { mantissa = pos 5; places = 1 }

abbrev pub env : Env
env = record {
  event_digest = λ body. body.event_type;
  text_digest = λ s. s;
  int_text = λ n. "n";
  now = 0;
}

abbrev pub spec : RunSpec
spec = record {
  run_id = "r1";
  deadline_epoch_ms = pos 1000;
  root_commit = "c";
  environment_sha256 = "e";
  data_manifest_sha256 = "d";
  evaluator_sha256 = "v";
}

abbrev proposal : Proposal
proposal = record {
  experiment_id = "x1";
  parent_id = none;
  operator = repair;
  hypothesis = "h";
  document = end;
}

abbrev nothing_given : Provenance
nothing_given = record {
  workspace_path = none;
  branch_name = none;
  commit_sha = none;
  config_sha256 = none;
  method_card_id = none;
  experiment_kind = none;
}

abbrev propose : Call
propose = Call.create_experiment "r1" proposal "c" 5 nothing_given

abbrev abandon : Call
abandon =
    Call.transition_experiment "x1" ExperimentState.proposed ExperimentState.abandoned end "k1"

abbrev revive : Call
revive = Call.transition_experiment "x1" ExperimentState.abandoned ExperimentState.proposed end "k2"

abbrev calls : List (ℕ × Call)
calls = (1, Call.create_run spec) ∷ (2, propose) ∷ (3, abandon) ∷ (4, revive) ∷ []

history-verifies_example :
    let outbox = (history env calls empty).event_outbox in
    verify_event_chain env.event_digest (export_events "r1" outbox)
    ≡ is_some (last_hash "r1" outbox)
history-verifies_example = history-verifies env calls "r1"

history-IsReachable_example : IsReachable (get "x1" (history env calls empty).experiments)
history-IsReachable_example = history-IsReachable env calls "x1"

-- The experiment of the history above, as it is stored after its last call.
abbrev pub abandoned_row : Experiment
abandoned_row = record {
  run_id = "r1";
  iteration_number = 1;
  parent_id = none;
  operator = repair;
  hypothesis = "h";
  proposal_json = end;
  state = ExperimentState.abandoned;
  branch_name = none;
  parent_commit = some "c";
  commit_sha = none;
  config_sha256 = none;
  workspace_path = none;
  method_card_id = none;
  experiment_kind = none;
  terminal_reason = none;
  created_at = 2;
  updated_at = 3;
}

abbrev stored : Db
unfolding empty
stored = record empty { experiments = ("x1", abandoned_row) ∷ [] }

stored-InState : InState ExperimentState.abandoned (get "x1" stored.experiments)
unfolding get String-discrete empty
stored-InState = refl

history_keeps_terminal_example :
    InState ExperimentState.abandoned (get "x1" (history env calls stored).experiments)
history_keeps_terminal_example =
    history_keeps_terminal env calls "x1" ExperimentState.abandoned stored refl stored-InState

perform-Moves_example :
    Ensures (λ db'. Moves empty.experiments db'.experiments) (perform env propose empty)
perform-Moves_example = perform-Moves env propose empty

-- The same history again, from the database that it leaves: each of its calls is a replay, or fails.
abbrev after_calls : Db
after_calls = history env calls empty

history-Advanced_example :
    Advanced (get "r1" after_calls.runs) (get "r1" (history env calls after_calls).runs)
history-Advanced_example = history-Advanced env calls "r1" after_calls

reserve_repair-Reserved_example :
    Ensures
      (Reserved "x1" 2 stored)
      (reserve_experiment_repair env "x1" "full" AttemptStatus.oom end 2 stored)
reserve_repair-Reserved_example =
    reserve_repair-Reserved env "x1" "full" AttemptStatus.oom end 2 stored

abbrev open_row : Experiment
open_row = record abandoned_row { state = ExperimentState.proposed }

abbrev open_db : Db
unfolding empty
open_db = record empty { experiments = ("x1", open_row) ∷ [] }

abbrev abandoned_db : Db
abandoned_db = transact open_db (
    transition_experiment env "x1" ExperimentState.proposed ExperimentState.abandoned end "k1"
      open_db)

open_db-abandoned :
    transition_experiment env "x1" ExperimentState.proposed ExperimentState.abandoned end "k1"
      open_db
    ≡ ok abandoned_db
unfolding transition_experiment experiment_transitions ExperimentState-discrete get String-discrete
    empty
open_db-abandoned = refl

abbrev later_env : Env
later_env = record env { now = 9 }

transition_replay_example :
    transition_experiment later_env "x1" ExperimentState.proposed ExperimentState.abandoned end "k1"
      abandoned_db
    ≡ ok abandoned_db
transition_replay_example =
    transition_replay env later_env "x1" ExperimentState.proposed ExperimentState.abandoned end "k1"
      open_db abandoned_db open_db-abandoned

abbrev finalist_row : Experiment
finalist_row = record abandoned_row {
  state = ExperimentState.official_valid_running;
  experiment_kind = some "production_search";
}

abbrev pub locked_run : Run
locked_run = record {
  state = RunState.searching;
  created_at = 1;
  updated_at = 1;
  deadline_epoch_ms = pos 1000;
  root_commit = "c";
  environment_sha256 = "e";
  data_manifest_sha256 = "d";
  evaluator_sha256 = "v";
  hypothesis_count = 1;
  official_evaluation_count = 0;
  non_improvement_streak = 0;
  best_primary_units = none;
  best_ever_experiment_id = none;
  search_champion_experiment_id = none;
  shadow_best_primary_units = none;
  shadow_champion_experiment_id = none;
  validation_phase = finalist_locked;
  finalist_experiment_id = some "x1";
  official_evaluated_at = none;
  stop_reason = none;
}

abbrev locked_db : Db
unfolding empty
locked_db = record empty { runs = ("r1", locked_run) ∷ []; experiments = ("x1", finalist_row) ∷ [] }

abbrev metrics : Metrics
metrics = record {
  gauc = half;
  ndcg5 = half;
  primary = half;
  users = 3;
  metric_rows = 9;
  evaluator_sha256 = "v";
  split = "valid";
  fold = none;
  seed = none;
}

-- The database after the official evaluation of the finalist.
abbrev evaluated : Result Db → Db
evaluated = transact locked_db

finalist_found : get "x1" locked_db.experiments ≡ some finalist_row
unfolding get String-discrete empty
finalist_found = refl

run_found : get "r1" locked_db.runs ≡ some locked_run
unfolding get String-discrete empty
run_found = refl

metrics_fresh : get (key_of "x1" metrics) locked_db.metrics ≡ none
unfolding get empty
metrics_fresh = refl

evaluation_succeeds :
    record_metrics env "x1" metrics none 5 locked_db
    ≡ ok (evaluated (record_metrics env "x1" metrics none 5 locked_db))
unfolding record_metrics get String-discrete Option-discrete ValidationPhase-discrete
    MetricKey-discrete empty
evaluation_succeeds = refl

record_metrics-Admits_example : Admits "x1" 5 locked_run
record_metrics-Admits_example =
    record_metrics-Admits env "x1" metrics none 5 locked_db
      (evaluated (record_metrics env "x1" metrics none 5 locked_db)) finalist_row locked_run
      finalist_found run_found refl refl metrics_fresh evaluation_succeeds
