-- ===== src/Store/Experiments.antt =====
-- src/rex/store/repository.py: `create_experiment`, `record_experiment_workspace`,
-- `transition_experiment`.
use tiktok_techjam_recsys_ag.Prelude.{
  ℕ, ◌+◌, Bool, true, false, not, ◌&&◌, ◌||◌, Option, none, some, String, ◌==◌, string_eq,
  option_eq, nat_eq, any, leb, is_some, if◌then◌else◌,
}
use tiktok_techjam_recsys_ag.Prelude.Table.{get, put, rows}
use tiktok_techjam_recsys_ag.Result.{
  Result, ok, repository_error, integrity_error, ◌>>=◌, ◌>>◌, require, require_some, on_row,
}
use tiktok_techjam_recsys_ag.Contracts.{
  ExperimentState, proposed, experiment_state_eq, Operator, operator_eq,
}
use tiktok_techjam_recsys_ag.Control.StateMachine.{require_experiment_transition}
use tiktok_techjam_recsys_ag.Store.Documents.{
  Json, Fields, end, field, state, text, operator, nat, text_or_null, fields_eq, look, merge,
}
use tiktok_techjam_recsys_ag.Store.Schema.{Experiment, Transition, Db}
use tiktok_techjam_recsys_ag.Store.Events.{Env, emit}
use tiktok_techjam_recsys_ag.Store.Runs.{coalesce}

-- The part of `ExperimentProposal` that the store reads, and `model_dump`, the whole document.
pub record Proposal : Type 0 where
  pub experiment_id : String
  pub parent_id : Option String
  pub operator : Operator
  pub hypothesis : String
  pub document : Fields

-- The optional arguments of `create_experiment`.
pub record Provenance : Type 0 where
  pub workspace_path : Option String
  pub branch_name : Option String
  pub commit_sha : Option String
  pub config_sha256 : Option String
  pub method_card_id : Option String
  pub experiment_kind : Option String

-- A REFERENCES constraint on a nullable column.
abbrev pub references : {V : Type 0} → (String → Option V) → Option String → Bool
references find none = true
references find (some key) = is_some (find key)

abbrev same_experiment : String → Proposal → String → Provenance → Experiment → Bool
same_experiment run_id proposal parent_commit given row =
    row.run_id == run_id
    && row.parent_id == proposal.parent_id
    && row.operator == proposal.operator
    && row.hypothesis == proposal.hypothesis
    && row.parent_commit == some parent_commit
    && row.workspace_path == given.workspace_path
    && row.branch_name == given.branch_name
    && row.commit_sha == given.commit_sha
    && row.config_sha256 == given.config_sha256
    && row.method_card_id == given.method_card_id
    && row.experiment_kind == given.experiment_kind

abbrev new_experiment : Env → String → Proposal → String → Provenance → ℕ → Experiment
new_experiment env run proposal commit given iteration = record {
  run_id = run;
  iteration_number = iteration;
  parent_id = proposal.parent_id;
  operator = proposal.operator;
  hypothesis = proposal.hypothesis;
  proposal_json = proposal.document;
  state = proposed;
  branch_name = given.branch_name;
  parent_commit = some commit;
  commit_sha = given.commit_sha;
  config_sha256 = given.config_sha256;
  workspace_path = given.workspace_path;
  method_card_id = given.method_card_id;
  experiment_kind = given.experiment_kind;
  terminal_reason = none;
  created_at = env.now;
  updated_at = env.now;
}

-- UNIQUE(run_id, iteration_number)
abbrev pub iteration_taken : String → ℕ → Db → Bool
iteration_taken run_id iteration db =
    any (λ e. e.run_id == run_id && e.iteration_number == iteration) (rows db.experiments)

-- Returns the iteration number.
unfoldable pub create_experiment :
    Env → String → Proposal → String → ℕ → Provenance → Db → Result (ℕ × Db)
create_experiment env run_id proposal parent_commit max_hypotheses given db = do
  run ← require_some (get run_id db.runs) (repository_error "unknown run")
  on_row (get proposal.experiment_id db.experiments)
      (λ existing. do
        require (same_experiment run_id proposal parent_commit given existing)
            (repository_error "conflicting replay for experiment")
        require (existing.proposal_json == proposal.document)
            (repository_error "conflicting replay for experiment: proposal_json")
        ok (existing.iteration_number, db))
      (do
        require (not (leb max_hypotheses run.hypothesis_count))
            (repository_error "hypothesis cap reached")
        let iteration = run.hypothesis_count + 1
        require (references (λ key. get key db.experiments) proposal.parent_id) integrity_error
        require (not (iteration_taken run_id iteration db)) integrity_error
        let run' = record run { hypothesis_count = iteration; updated_at = env.now }
        ok (
          iteration,
          emit env run_id "experiment.proposed" proposal.experiment_id
              (field "iteration" (nat iteration) (
                field "parent" (text_or_null proposal.parent_id)
                  (field "operator" (operator proposal.operator) end)))
              (record db {
                experiments =
                    put proposal.experiment_id
                      (new_experiment env run_id proposal parent_commit given iteration)
                      db.experiments;
                runs = put run_id run' db.runs;
              }),
        ))

-- One column of `record_experiment_workspace`: a NULL is filled, a value is kept and must agree.
abbrev column_agrees : Option String → Option String → Bool
column_agrees stored none = true
column_agrees none (some value) = true
column_agrees (some old) (some value) = old == value

abbrev column_fills : Option String → Option String → Bool
column_fills none (some value) = true
column_fills _ _ = false

abbrev updates_field : String → Option String → Option String → Fields → Fields
updates_field key none (some value) rest = field key (text value) rest
updates_field key _ _ rest = rest

abbrev fill : Option String → Option String → Option String
fill none incoming = incoming
fill (some old) incoming = some old

-- Returns the flag `idempotent`.
unfoldable pub record_experiment_workspace :
    Env → String → String → String → Option String → Option String → Db → Result (Bool × Db)
record_experiment_workspace env experiment_id path branch commit config db = do
  row ← require_some (get experiment_id db.experiments) (repository_error "unknown experiment")
  require
      (column_agrees row.workspace_path (some path)
        && column_agrees row.branch_name (some branch)
        && column_agrees row.commit_sha commit
        && column_agrees row.config_sha256 config)
      (repository_error "conflicting workspace provenance")
  let row' = record row {
    workspace_path = fill row.workspace_path (some path);
    branch_name = fill row.branch_name (some branch);
    commit_sha = fill row.commit_sha commit;
    config_sha256 = fill row.config_sha256 config;
    updated_at = env.now;
  }
  let updates = updates_field "workspace_path" row.workspace_path (some path) (
      updates_field "branch_name" row.branch_name (some branch) (
        updates_field "commit_sha" row.commit_sha commit
          (updates_field "config_sha256" row.config_sha256 config end)))
  if (column_fills row.workspace_path (some path)
        || column_fills row.branch_name (some branch)
        || column_fills row.commit_sha commit
        || column_fills row.config_sha256 config)
      then ok (
        false,
        emit env row.run_id "experiment.workspace_bound" experiment_id updates
            (record db { experiments = put experiment_id row' db.experiments }),
      )
      else ok (true, db)

abbrev pub same_transition : String → ExperimentState → ExperimentState → Transition → Bool
same_transition experiment_id from to row =
    row.experiment_id == experiment_id && row.from_state == from && row.to_state == to

-- `payload.get("reason")`, written to a text column.
abbrev reason_text : Option Json → Option String
reason_text (some (text s)) = some s
reason_text _ = none

unfoldable pub transition_experiment :
    Env → String → ExperimentState → ExperimentState → Fields → String → Db → Result Db
unfolding require_experiment_transition
transition_experiment env experiment_id expected next_state payload idempotency_key db = do
  require_experiment_transition expected next_state
  on_row (get idempotency_key db.transitions)
      (λ duplicate. do
        require (same_transition experiment_id expected next_state duplicate)
            (repository_error "conflicting replay for transition")
        require (duplicate.payload_json == payload)
            (repository_error "conflicting replay for transition")
        ok db)
      (do
        row ←
            require_some (get experiment_id db.experiments)
              (repository_error "experiment is not in expected state")
        require (row.state == expected) (repository_error "experiment is not in expected state")
        let row' = record row {
          state = next_state;
          updated_at = env.now;
          terminal_reason = coalesce (reason_text (look "reason" payload)) row.terminal_reason;
        }
        let entry : Transition = record {
          experiment_id = experiment_id;
          from_state = expected;
          to_state = next_state;
          payload_json = payload;
          created_at = env.now;
        }
        ok (
            emit env row.run_id "experiment.transition" experiment_id
              (merge (field "from" (state expected) (field "to" (state next_state) end)) payload)
              (record db {
                experiments = put experiment_id row' db.experiments;
                transitions = put idempotency_key entry db.transitions;
              })))
