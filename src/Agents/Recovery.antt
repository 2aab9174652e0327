-- ===== src/Agents/Recovery.antt =====
-- src/rex/agents/recovery.py: which failures are repaired, how, and whether a repair is charged. A
-- reason is an f-string in the source: here it is its template, a constructor, with the arguments.
pub mod Allowance
use tiktok_techjam_recsys_ag.Prelude.{
  ℕ, ◌+◌, Bool, true, false, not, ◌||◌, List, [], ◌∷◌, String, contains, leb, ◌==◌, if◌then◌else◌,
}
use tiktok_techjam_recsys_ag.Contracts.{
  AttemptStatus, syntax, import, contract, timeout, oom, nan, crash, invalid_artifact, interrupted,
  attempt_status_eq,
}

-- REPAIRABLE
abbrev pub repairable : List AttemptStatus
repairable = syntax ∷ import ∷ contract ∷ timeout ∷ oom ∷ nan ∷ invalid_artifact ∷ interrupted ∷ []

pub data Reason : Type 0 where
  not_safely_repairable : AttemptStatus → Reason
  repair_limit_reached : ℕ → Reason
  bounded_repair : AttemptStatus → Reason
  resume_interrupted : String → Reason
  untyped_crash : Reason
  limit_or_not_repairable : ℕ → Reason
  reduce_after_timeout : String → Reason
  reduce_memory_pressure : String → Reason
  request_repair : AttemptStatus → String → Reason

pub record RepairDecision : Type 0 where
  pub repair : Bool
  pub repair_number : ℕ
  pub reason : Reason

pub data RepairAction : Type 0 where
  resume patch reduce_workload terminal : RepairAction

-- The values that a plan's `overrides` hold: 0.5, a small integer, and a text.
pub data Override : Type 0 where
  half : Override
  count : ℕ → Override
  scope : String → Override

pub record TypedRepairPlan : Type 0 where
  pub repair : Bool
  pub consumes_budget : Bool
  pub repair_number : ℕ
  pub action : RepairAction
  pub reason : Reason
  pub overrides : List (String × Override)

unfoldable pub decide_repair : AttemptStatus → ℕ → ℕ → RepairDecision
decide_repair status used maximum =
    if not (contains status repairable)
    then record { repair = false; repair_number = used; reason = not_safely_repairable status }
    else if leb maximum used
    then record { repair = false; repair_number = used; reason = repair_limit_reached maximum }
    else record { repair = true; repair_number = used + 1; reason = bounded_repair status }

abbrev terminal_plan : ℕ → Reason → TypedRepairPlan
terminal_plan used why = record {
  repair = false;
  consumes_budget = false;
  repair_number = used;
  action = terminal;
  reason = why;
  overrides = [];
}

abbrev charged_plan : ℕ → RepairAction → Reason → List (String × Override) → TypedRepairPlan
charged_plan number chosen why changes = record {
  repair = true;
  consumes_budget = true;
  repair_number = number;
  action = chosen;
  reason = why;
  overrides = changes;
}

unfoldable pub plan_repair : AttemptStatus → ℕ → String → ℕ → TypedRepairPlan
plan_repair status used phase maximum =
    if status == interrupted
    then record {
      repair = true;
      consumes_budget = false;
      repair_number = used;
      action = resume;
      reason = resume_interrupted phase;
      overrides = [];
    }
    else if status == crash
    then terminal_plan used untyped_crash
    else if not (contains status repairable) || leb maximum used
    then terminal_plan used (limit_or_not_repairable maximum)
    else if status == timeout
    then charged_plan (used + 1) reduce_workload (reduce_after_timeout phase)
        (("batch_size_scale", half) ∷ ("workers", count 1) ∷ [])
    else if status == oom
    then charged_plan (used + 1) reduce_workload (reduce_memory_pressure phase)
        (("batch_size_scale", half) ∷ ("workers", count 1) ∷ ("threads", count 1) ∷ [])
    else charged_plan (used + 1) patch (request_repair status phase)
        (("allowed_scope", scope "declared_model_files_only") ∷ [])
