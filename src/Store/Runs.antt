-- ===== src/Store/Runs.antt =====
-- src/rex/store/repository.py: `create_run`, `transition_run`, `establish_baseline`.
use tiktok_techjam_recsys_ag.Prelude.{
  ℕ, Bool, true, false, ◌&&◌, Option, none, some, List, String, ◌==◌, string_eq, list_eq, nat_eq,
  length, contains, filter_by, count_distinct,
}
use tiktok_techjam_recsys_ag.Prelude.Int.{ℤ, int_eq}
use tiktok_techjam_recsys_ag.Prelude.Decimal.{Float, float_eq}
use tiktok_techjam_recsys_ag.Prelude.Table.{get, put, keys}
use tiktok_techjam_recsys_ag.Prelude.Texts.{sorted_set}
use tiktok_techjam_recsys_ag.Result.{
  Result, ok, repository_error, ◌>>=◌, ◌>>◌, require, require_some, on_row,
}
use tiktok_techjam_recsys_ag.Contracts.{
  RunState, initializing, baseline_verifying, run_state_eq, discovery,
}
use tiktok_techjam_recsys_ag.Control.StateMachine.{require_run_transition}
use tiktok_techjam_recsys_ag.Control.Budget.{metric_units}
use tiktok_techjam_recsys_ag.Store.Documents.{end, field, run_state, texts, int, real, text_or_null}
use tiktok_techjam_recsys_ag.Store.Schema.{Run, BaselineGate, Db}
use tiktok_techjam_recsys_ag.Store.Events.{Env, emit}

-- COALESCE(new, old)
abbrev pub coalesce : {A : Type 0} → Option A → Option A → Option A
coalesce none old = old
coalesce (some a) old = some a

-- The identity of a run, which a replay of its creation must repeat.
pub record RunSpec : Type 0 where
  pub run_id : String
  pub deadline_epoch_ms : ℤ
  pub root_commit : String
  pub environment_sha256 : String
  pub data_manifest_sha256 : String
  pub evaluator_sha256 : String

abbrev new_run : Env → RunSpec → Run
new_run env spec = record {
  state = initializing;
  created_at = env.now;
  updated_at = env.now;
  deadline_epoch_ms = spec.deadline_epoch_ms;
  root_commit = spec.root_commit;
  environment_sha256 = spec.environment_sha256;
  data_manifest_sha256 = spec.data_manifest_sha256;
  evaluator_sha256 = spec.evaluator_sha256;
  hypothesis_count = 0;
  official_evaluation_count = 0;
  non_improvement_streak = 0;
  best_primary_units = none;
  best_ever_experiment_id = none;
  search_champion_experiment_id = none;
  shadow_best_primary_units = none;
  shadow_champion_experiment_id = none;
  validation_phase = discovery;
  finalist_experiment_id = none;
  official_evaluated_at = none;
  stop_reason = none;
}

abbrev same_run : RunSpec → Run → Bool
same_run spec row =
    row.deadline_epoch_ms == spec.deadline_epoch_ms
    && row.root_commit == spec.root_commit
    && row.environment_sha256 == spec.environment_sha256
    && row.data_manifest_sha256 == spec.data_manifest_sha256
    && row.evaluator_sha256 == spec.evaluator_sha256

unfoldable pub create_run : Env → RunSpec → Db → Result Db
create_run env spec db =
    on_row (get spec.run_id db.runs)
      (λ existing. do
        require (same_run spec existing) (repository_error "conflicting replay for run")
        ok db)
      (ok (
        emit env spec.run_id "run.created" spec.run_id (field "state" (run_state initializing) end)
          (record db { runs = put spec.run_id (new_run env spec) db.runs })))

unfoldable pub transition_run : Env → String → RunState → RunState → Option String → Db → Result Db
unfolding require_run_transition
transition_run env run_id expected next_state reason db = do
  require_run_transition expected next_state
  row ← require_some (get run_id db.runs) (repository_error "run is not in expected state")
  require (row.state == expected) (repository_error "run is not in expected state")
  let row' = record row {
    state = next_state;
    updated_at = env.now;
    stop_reason = coalesce reason row.stop_reason;
  }
  ok (
      emit env run_id "run.transition" run_id
        (field "from" (run_state expected)
          (field "to" (run_state next_state) (field "reason" (text_or_null reason) end)))
        (record db { runs = put run_id row' db.runs }))

-- The contract `Metrics`.
pub record Metrics : Type 0 where
  pub gauc : Float
  pub ndcg5 : Float
  pub primary : Float
  pub users : ℕ
  pub metric_rows : ℕ
  pub evaluator_sha256 : String
  pub split : String
  pub fold : Option String
  pub seed : Option ℤ

abbrev same_gate : ℤ → Metrics → List String → BaselineGate → Bool
same_gate units metrics evidence row =
    row.primary_units == units
    && row.gauc == metrics.gauc
    && row.ndcg5 == metrics.ndcg5
    && row.evidence_json == evidence

-- SELECT COUNT(DISTINCT artifact_id) FROM artifacts WHERE artifact_id IN (…)
abbrev pub known_count : List String → Db → ℕ
known_count evidence db =
    count_distinct (filter_by (λ id. contains id evidence) (keys db.artifacts))

-- The flag of the returned dictionary is `idempotent`; `primary_units` beside it is a function of
-- the arguments.
unfoldable pub establish_baseline : Env → String → Metrics → List String → Db → Result (Bool × Db)
establish_baseline env run_id metrics evidence_artifact_ids db = do
  let evidence = sorted_set evidence_artifact_ids
  let units = metric_units metrics.primary
  run ← require_some (get run_id db.runs) (repository_error "unknown run")
  on_row (get run_id db.baseline_gates)
      (λ prior. do
        require (same_gate units metrics evidence prior)
            (repository_error "conflicting replay for baseline gate")
        ok (true, db))
      (do
        require (run.state == baseline_verifying)
            (repository_error "baseline can only be established while BASELINE_VERIFYING")
        require (known_count evidence db == length evidence)
            (repository_error "baseline cites missing evidence artifacts")
        let gate : BaselineGate = record {
          primary_units = units;
          gauc = metrics.gauc;
          ndcg5 = metrics.ndcg5;
          evidence_json = evidence;
          created_at = env.now;
        }
        let run' = record run {
          best_primary_units = some units;
          best_ever_experiment_id = some "baseline";
          search_champion_experiment_id = some "baseline";
          updated_at = env.now;
        }
        ok (
          false,
          emit env run_id "baseline.validated" run_id
              (field "primary_units" (int units) (
                field "gauc" (real metrics.gauc) (
                  field "ndcg5" (real metrics.ndcg5)
                    (field "evidence_artifact_ids" (texts evidence) end))))
              (record db {
                baseline_gates = put run_id gate db.baseline_gates;
                runs = put run_id run' db.runs;
              }),
        ))
