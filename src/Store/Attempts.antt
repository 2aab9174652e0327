-- ===== src/Store/Attempts.antt =====
-- src/rex/store/repository.py: `reserve_attempt` and `record_attempt`.
use Prim.Native.String.{◌++◌ as join}
use tiktok_techjam_recsys_ag.Prelude.{
  ℕ, Bool, true, false, not, ◌&&◌, Option, none, some, List, [], ◌∷◌, String, ◌==◌, string_eq,
  option_eq, nat_eq, is_some, if◌then◌else◌,
}
use tiktok_techjam_recsys_ag.Prelude.Int.{ℤ, int_eq}
use tiktok_techjam_recsys_ag.Prelude.Decimal.{Float, float_eq, zero_float}
use tiktok_techjam_recsys_ag.Prelude.Table.{get, put}
use tiktok_techjam_recsys_ag.Result.{
  Result, ok, repository_error, integrity_error, ◌>>=◌, ◌>>◌, require, require_some, on_row,
}
use tiktok_techjam_recsys_ag.Contracts.{AttemptStatus, attempt_status_eq}
use tiktok_techjam_recsys_ag.Store.Documents.{end, field, text, nat, status, real}
use tiktok_techjam_recsys_ag.Store.Schema.{
  Attempt, reserved, finished, attempt_progress_eq, ResourceUsage, Db,
}
use tiktok_techjam_recsys_ag.Store.Events.{Env, emit}
use tiktok_techjam_recsys_ag.Store.Artifacts.{ArtifactRef}

-- The key is compared only when a value is given.
abbrev agrees : Option String → Option String → Bool
agrees none stored = true
agrees (some value) stored = stored == some value

abbrev same_action : String → String → ℕ → Attempt → Bool
same_action experiment_id rung repair_number row =
    row.experiment_id == experiment_id && row.rung == rung && row.repair_number == repair_number

-- Returns the flags `idempotent` and `completed`.
unfoldable pub reserve_attempt :
    Env
    → String
    → String
    → String
    → ℕ
    → Option String
    → Option String
    → Db
    → Result ((Bool × Bool) × Db)
reserve_attempt env attempt_id experiment_id rung repair_number command commit db = do
  require (is_some (get experiment_id db.experiments)) (repository_error "unknown experiment")
  on_row (get attempt_id db.attempts)
      (λ row.
        if row.status == reserved
        then (do
          require
              (same_action experiment_id rung repair_number row
                && row.command_sha256 == command
                && row.commit_sha == commit)
              (repository_error "conflicting replay for attempt reservation")
          ok ((true, false), db))
        else (do
          require
              (same_action experiment_id rung repair_number row
                && agrees command row.command_sha256
                && agrees commit row.commit_sha)
              (repository_error "conflicting replay for completed attempt reservation")
          ok ((true, true), db)))
      (do
        let row : Attempt = record {
          experiment_id = experiment_id;
          rung = rung;
          repair_number = repair_number;
          status = reserved;
          command_sha256 = command;
          commit_sha = commit;
          started_at = some env.now;
          ended_at = none;
          wall_seconds = zero_float;
          exit_code = none;
          signal = none;
          error_type = none;
          error_summary = none;
          stdout_artifact_id = none;
          stderr_artifact_id = none;
        }
        ok ((false, false), record db { attempts = put attempt_id row db.attempts }))

-- The contract `RunResult`, as far as the store reads it.
pub record RunResult : Type 0 where
  pub experiment_id : String
  pub attempt_id : String
  pub status : AttemptStatus
  pub exit_code : Option ℤ
  pub signal : Option ℤ
  pub error_type : Option String
  pub error_summary : Option String
  pub command_sha256 : String
  pub commit_sha : String
  pub artifacts : List ArtifactRef
  pub wall_seconds : Float
  pub cpu_user_seconds : Float
  pub cpu_system_seconds : Float
  pub peak_rss_bytes : ℕ
  pub gpu_seconds : Float

-- next((item.artifact_id for item in artifacts if item.kind == kind), None)
abbrev first_of_kind : String → List ArtifactRef → Option String
first_of_kind kind [] = none
first_of_kind kind (item ∷ rest) =
    if item.kind == kind then some item.artifact_id else first_of_kind kind rest

abbrev same_attempt : RunResult → String → ℕ → Attempt → Bool
same_attempt result rung repair_number row =
    same_action result.experiment_id rung repair_number row
    && row.status == finished result.status
    && row.command_sha256 == some result.command_sha256
    && row.commit_sha == some result.commit_sha
    && row.wall_seconds == result.wall_seconds
    && row.exit_code == result.exit_code
    && row.signal == result.signal
    && row.error_type == result.error_type
    && row.error_summary == result.error_summary
    && row.stdout_artifact_id == first_of_kind "stdout" result.artifacts
    && row.stderr_artifact_id == first_of_kind "stderr" result.artifacts

abbrev completed_attempt : Env → RunResult → String → ℕ → Option ℕ → Attempt
completed_attempt env result stage number started = record {
  experiment_id = result.experiment_id;
  rung = stage;
  repair_number = number;
  status = finished result.status;
  command_sha256 = some result.command_sha256;
  commit_sha = some result.commit_sha;
  started_at = started;
  ended_at = some env.now;
  wall_seconds = result.wall_seconds;
  exit_code = result.exit_code;
  signal = result.signal;
  error_type = result.error_type;
  error_summary = result.error_summary;
  stdout_artifact_id = first_of_kind "stdout" result.artifacts;
  stderr_artifact_id = first_of_kind "stderr" result.artifacts;
}

-- What a reservation fixed must be what was run: the fields that it left NULL are free.
abbrev honours : RunResult → String → ℕ → Attempt → Bool
honours result rung repair_number row =
    same_action result.experiment_id rung repair_number row
    && agrees row.command_sha256 (some result.command_sha256)
    && agrees row.commit_sha (some result.commit_sha)

-- f"attempt:{attempt_id}:worker"
abbrev worker_key : String → String
worker_key attempt_id = join "attempt:" (join attempt_id ":worker")

-- The rest of `record_attempt`, once the row of the attempt is written.
complete_attempt : Env → String → RunResult → String → ℕ → Option ℕ → Db → Result Db
complete_attempt env run result stage number started db = do
  require (not (is_some (get (worker_key result.attempt_id) db.resource_usage))) integrity_error
  let usage : ResourceUsage = record {
    run_id = run;
    experiment_id = some result.experiment_id;
    attempt_id = some result.attempt_id;
    scope = "worker";
    wall_seconds = result.wall_seconds;
    cpu_user_seconds = result.cpu_user_seconds;
    cpu_system_seconds = result.cpu_system_seconds;
    peak_rss_bytes = result.peak_rss_bytes;
    gpu_seconds = result.gpu_seconds;
    llm_tokens = 0;
  }
  ok (
      emit env run "attempt.completed" result.attempt_id
        (field "experiment_id" (text result.experiment_id) (
          field "rung" (text stage) (
            field "repair_number" (nat number) (
              field "status" (status result.status)
                (field "wall_seconds" (real result.wall_seconds) end)))))
        (record db {
          attempts =
              put result.attempt_id (completed_attempt env result stage number started) db.attempts;
          resource_usage = put (worker_key result.attempt_id) usage db.resource_usage;
        }))

unfoldable pub record_attempt : Env → RunResult → String → ℕ → Db → Result Db
unfolding complete_attempt
record_attempt env result stage number db = do
  experiment ←
      require_some (get result.experiment_id db.experiments) (repository_error "unknown experiment")
  on_row (get result.attempt_id db.attempts)
      (λ prior.
        if prior.status == reserved
        then (do
          require (honours result stage number prior)
              (repository_error "conflicting replay for attempt reservation")
          complete_attempt env experiment.run_id result stage number prior.started_at db)
        else (do
          require (same_attempt result stage number prior)
              (repository_error "conflicting replay for attempt")
          ok db))
      (complete_attempt env experiment.run_id result stage number none db)
