-- ===== src/Store/Schema.antt =====
-- src/rex/store/schema.sql: the rows of the tables. A table is keyed by its primary key, or by the
-- unique column that the program looks it up by; that column is the key and no field of the row.
-- A nullable column is an `Option`, an instant is a number, and a JSON column is its document.
use tiktok_techjam_recsys_ag.Prelude.{
  ℕ, Bool, Option, List, String, Eq, ℕ_discrete, String-discrete, Option-discrete,
}
use tiktok_techjam_recsys_ag.Prelude.Int.{ℤ, ℤ-discrete}
use tiktok_techjam_recsys_ag.Prelude.Decimal.{Float}
use tiktok_techjam_recsys_ag.Prelude.Table.{Table}
use tiktok_techjam_recsys_ag.Contracts.{
  RunState, ExperimentState, ValidationPhase, Operator, AttemptStatus, AttemptStatus-discrete,
}
use tiktok_techjam_recsys_ag.Store.Documents.{Fields}

pub record Run : Type 0 where
  pub state : RunState
  pub created_at : ℕ
  pub updated_at : ℕ
  pub deadline_epoch_ms : ℤ
  pub root_commit : String
  pub environment_sha256 : String
  pub data_manifest_sha256 : String
  pub evaluator_sha256 : String
  pub hypothesis_count : ℕ
  pub official_evaluation_count : ℕ
  pub non_improvement_streak : ℕ
  pub best_primary_units : Option ℤ
  pub best_ever_experiment_id : Option String
  pub search_champion_experiment_id : Option String
  pub shadow_best_primary_units : Option ℤ
  pub shadow_champion_experiment_id : Option String
  pub validation_phase : ValidationPhase
  pub finalist_experiment_id : Option String
  pub official_evaluated_at : Option ℕ
  pub stop_reason : Option String

pub record BaselineGate : Type 0 where
  pub primary_units : ℤ
  pub gauc : Float
  pub ndcg5 : Float
  pub evidence_json : List String
  pub created_at : ℕ

-- Keyed by `idempotency_key`; PRIMARY KEY(run_id, to_phase) besides.
pub record PhaseTransition : Type 0 where
  pub run_id : String
  pub from_phase : ValidationPhase
  pub to_phase : ValidationPhase
  pub finalist_experiment_id : Option String
  pub evidence_json : List String
  pub created_at : ℕ

pub record ShadowEvaluation : Type 0 where
  pub run_id : String
  pub family : String
  pub primary_units : ℤ
  pub supported : Bool
  pub delta_units : Option ℤ
  pub evidence_json : List String
  pub created_at : ℕ

pub record Experiment : Type 0 where
  pub run_id : String
  pub iteration_number : ℕ
  pub parent_id : Option String
  pub operator : Operator
  pub hypothesis : String
  pub proposal_json : Fields
  pub state : ExperimentState
  pub branch_name : Option String
  pub parent_commit : Option String
  pub commit_sha : Option String
  pub config_sha256 : Option String
  pub workspace_path : Option String
  pub method_card_id : Option String
  pub experiment_kind : Option String
  pub terminal_reason : Option String
  pub created_at : ℕ
  pub updated_at : ℕ

-- Keyed by `idempotency_key`.
pub record Transition : Type 0 where
  pub experiment_id : String
  pub from_state : ExperimentState
  pub to_state : ExperimentState
  pub payload_json : Fields
  pub created_at : ℕ

-- The column holds "reserved", or the value of an `AttemptStatus`.
pub data AttemptProgress : Type 0 where
  reserved : AttemptProgress
  finished : AttemptStatus → AttemptProgress

unfoldable pub AttemptProgress-discrete : Discrete AttemptProgress
AttemptProgress-discrete = hlevel AttemptStatus-discrete

instance abbrev pub attempt_progress_eq : Eq AttemptProgress
attempt_progress_eq = record { dec = AttemptProgress-discrete }

pub record Attempt : Type 0 where
  pub experiment_id : String
  pub rung : String
  pub repair_number : ℕ
  pub status : AttemptProgress
  pub command_sha256 : Option String
  pub commit_sha : Option String
  pub started_at : Option ℕ
  pub ended_at : Option ℕ
  pub wall_seconds : Float
  pub exit_code : Option ℤ
  pub signal : Option ℤ
  pub error_type : Option String
  pub error_summary : Option String
  pub stdout_artifact_id : Option String
  pub stderr_artifact_id : Option String

-- The text f"{experiment_id}:repair:{number}", by its parts.
pub record RepairId : Type 0 where
  pub experiment_id : String
  pub number : ℕ

unfoldable pub RepairId-discrete : Discrete RepairId
RepairId-discrete = hlevel (String-discrete, ℕ_discrete)

instance abbrev pub repair_id_eq : Eq RepairId
repair_id_eq = record { dec = RepairId-discrete }

pub record Repair : Type 0 where
  pub experiment_id : String
  pub repair_number : ℕ
  pub phase : String
  pub failure_status : AttemptStatus
  pub plan_json : Fields
  pub evidence_json : Option (List String)
  pub previous_commit_sha : Option String
  pub repaired_commit_sha : Option String
  pub previous_config_sha256 : Option String
  pub repaired_config_sha256 : Option String
  pub effective_config_artifact_id : Option String
  pub created_at : ℕ
  pub completed_at : Option ℕ

-- UNIQUE(experiment_id, split, fold, seed), which the program also looks up with `IS`.
pub record MetricKey : Type 0 where
  pub experiment_id : String
  pub split : String
  pub fold : Option String
  pub seed : Option ℤ

unfoldable pub MetricKey-discrete : Discrete MetricKey
MetricKey-discrete =
    hlevel (String-discrete, Option-discrete String-discrete, Option-discrete ℤ-discrete)

instance abbrev pub metric_key_eq : Eq MetricKey
metric_key_eq = record { dec = MetricKey-discrete }

pub record Metric : Type 0 where
  pub attempt_id : Option String
  pub evaluator_sha256 : String
  pub gauc : Float
  pub ndcg5 : Float
  pub primary_score : Float
  pub primary_units : ℤ
  pub metric_rows : ℕ
  pub users : ℕ

pub record Artifact : Type 0 where
  pub experiment_id : Option String
  pub attempt_id : Option String
  pub kind : String
  pub path : String
  pub sha256 : String
  pub size_bytes : ℕ
  pub schema_version : String
  pub created_at : ℕ

pub record ArtifactLink : Type 0 where
  pub artifact_id : String
  pub experiment_id : Option String
  pub attempt_id : Option String
  pub artifact_path : Option String
  pub created_at : ℕ

pub record Promotion : Type 0 where
  pub run_id : String
  pub previous_experiment_id : Option String
  pub experiment_id : String
  pub primary_units : ℤ
  pub checkpoint_artifact_id : String
  pub prediction_artifact_id : String
  pub submission_artifact_id : String
  pub validator_artifact_id : String
  pub created_at : ℕ

pub record SearchPromotion : Type 0 where
  pub run_id : String
  pub previous_experiment_id : Option String
  pub experiment_id : String
  pub primary_units : ℤ
  pub evidence_json : List String
  pub created_at : ℕ

pub record Convergence : Type 0 where
  pub run_id : String
  pub outcome : String
  pub delta_units : Option ℤ
  pub created_at : ℕ

pub record LlmCall : Type 0 where
  pub run_id : String
  pub experiment_id : Option String
  pub role : String
  pub provider : String
  pub model : String
  pub request_id : Option String
  pub request_artifact_id : Option String
  pub response_artifact_id : Option String
  pub schema_valid : Bool
  pub input_tokens : ℕ
  pub output_tokens : ℕ
  pub wall_seconds : Float
  pub error : Option String

pub record ResourceUsage : Type 0 where
  pub run_id : String
  pub experiment_id : Option String
  pub attempt_id : Option String
  pub scope : String
  pub wall_seconds : Float
  pub cpu_user_seconds : Float
  pub cpu_system_seconds : Float
  pub peak_rss_bytes : ℕ
  pub gpu_seconds : Float
  pub llm_tokens : ℕ

pub record Lesson : Type 0 where
  pub run_id : String
  pub experiment_id : String
  pub scope : String
  pub lesson : String
  pub evidence_json : List String
  pub created_at : ℕ

pub record Intervention : Type 0 where
  pub run_id : String
  pub actor : String
  pub action : String
  pub reason : String
  pub evidence_json : Fields
  pub created_at : ℕ

pub record ProcessSession : Type 0 where
  pub run_id : String
  pub pid : Option ℤ
  pub host : Option String
  pub started_at : ℕ
  pub ended_at : Option ℕ
  pub monotonic_seconds : Float
  pub last_heartbeat : Option ℕ
  pub exit_reason : Option String
  pub console_log_sha256 : Option String

pub record Event : Type 0 where
  pub run_id : String
  pub event_type : String
  pub aggregate_id : String
  pub payload_json : Fields
  pub previous_hash : Option String
  pub event_hash : String
  pub created_at : ℕ

pub record Db : Type 0 where
  pub runs : Table String Run
  pub process_sessions : Table String ProcessSession
  pub baseline_gates : Table String BaselineGate
  pub phase_transitions : Table String PhaseTransition
  pub shadow_evaluations : Table String ShadowEvaluation
  pub experiments : Table String Experiment
  pub transitions : Table String Transition
  pub attempts : Table String Attempt
  pub repairs : Table RepairId Repair
  pub metrics : Table MetricKey Metric
  pub artifacts : Table String Artifact
  pub artifact_links : Table String ArtifactLink
  pub promotions : List Promotion
  pub search_promotions : List SearchPromotion
  pub convergence : Table String Convergence
  pub llm_calls : Table String LlmCall
  pub resource_usage : Table String ResourceUsage
  pub lessons : Table String Lesson
  pub interventions : Table String Intervention
  -- Newest first: the head has the largest `sequence`.
  pub event_outbox : List Event
