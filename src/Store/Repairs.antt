-- ===== src/Store/Repairs.antt =====
-- src/rex/store/repository.py: `reserve_experiment_repair`, `complete_experiment_repair`,
-- `apply_experiment_repair_revision` and `experiment_repairs_used`.
pub mod Limit
use Prim.Native.String.{◌++◌ as join}
use tiktok_techjam_recsys_ag.Prelude.{
  ℕ, suc, ◌+◌, Bool, true, false, not, ◌&&◌, Option, none, some, List, [], ◌∷◌, String, ◌==◌, any,
  string_eq, option_eq, nat_eq, list_eq, is_some, leb, ltb, if◌then◌else◌,
}
use tiktok_techjam_recsys_ag.Prelude.Table.{Table, get, put, rows}
use tiktok_techjam_recsys_ag.Prelude.Texts.{sorted_set}
use tiktok_techjam_recsys_ag.Result.{
  Result, ok, repository_error, integrity_error, ◌>>=◌, ◌>>◌, require, require_some, on_row,
}
use tiktok_techjam_recsys_ag.Contracts.{
  AttemptStatus, attempt_status_eq, repairing, experiment_state_eq,
}
use tiktok_techjam_recsys_ag.Store.Documents.{
  Fields, end, field, text, texts, nat, status, object, text_or_null, fields_eq,
}
use tiktok_techjam_recsys_ag.Store.Schema.{Repair, RepairId, repair_id_eq, Artifact, Db}
use tiktok_techjam_recsys_ag.Store.Events.{Env, emit}

-- SELECT COUNT(*) FROM experiment_repairs WHERE experiment_id=?
unfoldable pub count_repairs : String → Table RepairId Repair → ℕ
count_repairs experiment_id [] = 0
count_repairs experiment_id ((_, r) ∷ rest) =
    let more = count_repairs experiment_id rest in
    if r.experiment_id == experiment_id then suc more else more

unfoldable pub experiment_repairs_used : String → Db → ℕ
unfolding count_repairs
experiment_repairs_used experiment_id db = count_repairs experiment_id db.repairs

abbrev is_incomplete : String → Repair → Bool
is_incomplete experiment_id r = r.experiment_id == experiment_id && r.completed_at == none

-- The row with the larger repair number.
abbrev later : RepairId × Repair → Option (RepairId × Repair) → RepairId × Repair
later row none = row
later row (some other) = if ltb row.1.repair_number other.1.repair_number then other else row

-- SELECT * … WHERE experiment_id=? AND completed_at IS NULL ORDER BY repair_number DESC LIMIT 1
unfoldable pub incomplete_repair : String → Table RepairId Repair → Option (RepairId × Repair)
incomplete_repair experiment_id [] = none
incomplete_repair experiment_id (row ∷ rest) =
    let best = incomplete_repair experiment_id rest in
    if is_incomplete experiment_id row.1 then some (later row best) else best

-- The text of the id.
abbrev repair_text : Env → RepairId → String
repair_text env id = join id.experiment_id (join ":repair:" (env.int_text id.number))

-- UNIQUE(experiment_id, repair_number)
abbrev repair_taken : String → ℕ → Db → Bool
repair_taken experiment_id number db =
    any (λ r. r.experiment_id == experiment_id && r.repair_number == number) (rows db.repairs)

abbrev pub RepairReply : Type 0
RepairReply = Bool × RepairId × ℕ

abbrev new_repair : Env → String → String → AttemptStatus → Fields → ℕ → Repair
new_repair env experiment stage failure plan number = record {
  experiment_id = experiment;
  repair_number = number;
  phase = stage;
  failure_status = failure;
  plan_json = plan;
  evidence_json = none;
  previous_commit_sha = none;
  repaired_commit_sha = none;
  previous_config_sha256 = none;
  repaired_config_sha256 = none;
  effective_config_artifact_id = none;
  created_at = env.now;
  completed_at = none;
}

-- Returns `idempotent`, `repair_id` and `repair_number`.
unfoldable pub reserve_experiment_repair :
    Env → String → String → AttemptStatus → Fields → ℕ → Db → Result (RepairReply × Db)
unfolding incomplete_repair experiment_repairs_used
reserve_experiment_repair env experiment_id phase failure plan maximum db = do
  experiment ←
      require_some (get experiment_id db.experiments) (repository_error "unknown experiment")
  on_row (incomplete_repair experiment_id db.repairs)
      (λ incomplete. do
        require
            (incomplete.1.phase == phase
              && incomplete.1.failure_status == failure
              && incomplete.1.plan_json == plan)
            (repository_error "conflicting replay for incomplete repair")
        ok ((true, incomplete.0, incomplete.1.repair_number), db))
      (do
        let used = experiment_repairs_used experiment_id db
        require (not (leb maximum used)) (repository_error "experiment repair limit reached")
        let number = used + 1
        let repair_id : RepairId = record { experiment_id = experiment_id; number = number }
        require (not (is_some (get repair_id db.repairs))) integrity_error
        require (not (repair_taken experiment_id number db)) integrity_error
        ok (
          (false, repair_id, number),
          emit env experiment.run_id "repair.reserved" (repair_text env repair_id)
              (field "experiment_id" (text experiment_id) (
                field "repair_number" (nat number) (
                  field "phase" (text phase)
                    (field "failure_status" (status failure) (field "plan" (object plan) end)))))
              (record db {
                repairs =
                    put repair_id (new_repair env experiment_id phase failure plan number)
                      db.repairs;
              }),
        ))

-- Returns the flag `idempotent`.
unfoldable pub complete_experiment_repair : Env → RepairId → List String → Db → Result (Bool × Db)
complete_experiment_repair env repair_id evidence_artifact_ids db = do
  let evidence = sorted_set evidence_artifact_ids
  row ← require_some (get repair_id db.repairs) (repository_error "unknown repair")
  experiment ←
      require_some (get row.experiment_id db.experiments) (repository_error "unknown repair")
  if is_some row.completed_at
      then (do
        require (row.evidence_json == some evidence)
            (repository_error "conflicting replay for repair completion")
        ok (true, db))
      else (do
        let row' = record row { evidence_json = some evidence; completed_at = some env.now }
        ok (
          false,
          emit env experiment.run_id "repair.completed" (repair_text env repair_id)
              (field "evidence_artifact_ids" (texts evidence) end)
              (record db { repairs = put repair_id row' db.repairs }),
        ))

-- SELECT … FROM artifacts JOIN artifact_links … WHERE artifact_id=? AND link.experiment_id=?
abbrev linked_artifact : String → String → Db → Option Artifact
linked_artifact artifact_id experiment_id db =
    if any (λ l. l.artifact_id == artifact_id && l.experiment_id == some experiment_id)
      (rows db.artifact_links)
    then get artifact_id db.artifacts
    else none

abbrev same_revision : String → String → String → Repair → Bool
same_revision commit config artifact_id row =
    row.repaired_commit_sha == some commit
    && row.repaired_config_sha256 == some config
    && row.effective_config_artifact_id == some artifact_id

-- Returns `idempotent` and the effective `config_sha256`; the commit is the argument.
unfoldable pub apply_experiment_repair_revision :
    Env → RepairId → String → String → Db → Result ((Bool × String) × Db)
apply_experiment_repair_revision env repair_id commit artifact_id db = do
  require (not (commit == "")) (repository_error "repaired commit SHA must be non-empty")
  row ← require_some (get repair_id db.repairs) (repository_error "unknown repair")
  experiment ←
      require_some (get row.experiment_id db.experiments) (repository_error "unknown repair")
  artifact ←
      require_some (linked_artifact artifact_id row.experiment_id db)
        (repository_error "repair config artifact is not linked to the experiment")
  require (artifact.kind == "repaired_experiment_config")
      (repository_error "repair revision requires a repaired_experiment_config artifact")
  if is_some row.repaired_commit_sha
      then (do
        require (same_revision commit artifact.sha256 artifact_id row)
            (repository_error "conflicting replay for repair revision")
        require
            (experiment.commit_sha == some commit
              && experiment.config_sha256 == some artifact.sha256)
            (repository_error "experiment provenance drifted after repair revision")
        ok ((true, artifact.sha256), db))
      else (do
        require (experiment.state == repairing)
            (repository_error "repair revision requires experiment state REPAIRING")
        let row' = record row {
          previous_commit_sha = experiment.commit_sha;
          repaired_commit_sha = some commit;
          previous_config_sha256 = experiment.config_sha256;
          repaired_config_sha256 = some artifact.sha256;
          effective_config_artifact_id = some artifact_id;
        }
        let experiment' = record experiment {
          commit_sha = some commit;
          config_sha256 = some artifact.sha256;
          updated_at = env.now;
        }
        ok (
          (false, artifact.sha256),
          emit env experiment.run_id "repair.revision_applied" (repair_text env repair_id)
              (field "experiment_id" (text row.experiment_id) (
                field "previous_commit_sha" (text_or_null experiment.commit_sha) (
                  field "repaired_commit_sha" (text commit) (
                    field "previous_config_sha256" (text_or_null experiment.config_sha256) (
                      field "repaired_config_sha256" (text artifact.sha256)
                        (field "effective_config_artifact_id" (text artifact_id) end))))))
              (record db {
                repairs = put repair_id row' db.repairs;
                experiments = put row.experiment_id experiment' db.experiments;
              }),
        ))
