-- ===== src/Tests.antt =====
-- Concrete inputs of the state machines, the trackers and the repair policy; the store's are below.
pub mod Histories
pub mod Submissions
pub mod Leases
pub mod Searches
pub mod Sessions
pub mod Patches
pub mod Arrays
pub mod Features
pub mod Finalists
pub mod Samples
use Prim.Native.Nat.{min}
use tiktok_techjam_recsys_ag.Prelude.{
  ℕ, ◌≡◌, ◌≤◌, ◌<◌, ◌+◌, ◌*◌, ◌^◌, refl, none, some, List, [], ◌∷◌, String, is_some, arith,
  String-discrete, Option-discrete, string_eq,
}
use tiktok_techjam_recsys_ag.Prelude.Int.{pos, ◌≤ℤ◌, negsuc, pos_part, neg_part}
use tiktok_techjam_recsys_ag.Prelude.Decimal.{Float}
use tiktok_techjam_recsys_ag.Prelude.Paths.{here, step, Enters}
use tiktok_techjam_recsys_ag.Prelude.Table.{get}
use tiktok_techjam_recsys_ag.Result.{Result, ok}
use tiktok_techjam_recsys_ag.Result.Ensures.{Ensures}
use tiktok_techjam_recsys_ag.Contracts.{
  ExperimentState, RunState, finalist_locked, ValidationPhase-discrete, AttemptStatus,
  RunState-discrete, ExperimentState-discrete,
}
use tiktok_techjam_recsys_ag.Control.StateMachine.{run_transitions, experiment_transitions}
use tiktok_techjam_recsys_ag.Control.StateMachine.Runs.{RunPath, is_state, complete_gates}
use tiktok_techjam_recsys_ag.Control.StateMachine.Gates.{
  ExperimentPath, is_promotion_gate, is_diagnosed, promoted_gate, confirmation_gate,
}
use tiktok_techjam_recsys_ag.Control.Budget.{metric_units}
use tiktok_techjam_recsys_ag.Control.Budget.Rounding.{Near, metric_units_error}
use tiktok_techjam_recsys_ag.Agents.Recovery.Allowance.{
  repairs_after, count_charged, repairs_after_lem,
}
use tiktok_techjam_recsys_ag.Store.Documents.{end}
use tiktok_techjam_recsys_ag.Store.Schema.{Run, Experiment, MetricKey-discrete, metric_key_eq, Db}
use tiktok_techjam_recsys_ag.Store.Events.{Env, last_hash, export_events, verify_event_chain}
use tiktok_techjam_recsys_ag.Store.Runs.{RunSpec, Metrics}
use tiktok_techjam_recsys_ag.Store.Experiments.{Proposal, Provenance, transition_experiment}
use tiktok_techjam_recsys_ag.Store.Measurements.{key_of, record_metrics}
use tiktok_techjam_recsys_ag.Store.Measurements.Official.{Admits, record_metrics-Admits}
use tiktok_techjam_recsys_ag.Store.Repairs.{reserve_experiment_repair}
use tiktok_techjam_recsys_ag.Store.Repairs.Limit.{Reserved, reserve_repair-Reserved}
use tiktok_techjam_recsys_ag.Store.Replays.{transition_replay}
use tiktok_techjam_recsys_ag.Store.Calls.{Call, perform, transact, history, empty}
use tiktok_techjam_recsys_ag.Store.Calls.Chained.{history-verifies}
use tiktok_techjam_recsys_ag.Store.Calls.Moved.{Moves}
use tiktok_techjam_recsys_ag.Store.Calls.Moves.{perform-Moves}
use tiktok_techjam_recsys_ag.Store.Calls.Advances.{Advanced}
use tiktok_techjam_recsys_ag.Store.Calls.Phases.{history-Advanced}
use tiktok_techjam_recsys_ag.Store.Calls.Lifecycle.{
  IsReachable, InState, history-IsReachable, history_keeps_terminal,
}

abbrev run_path : RunPath RunState.initializing RunState.complete
unfolding run_transitions RunState-discrete
run_path =
    step {t = RunState.finalizing}
      (step {t = RunState.searching} (step {t = RunState.baseline_verifying} (step here refl) refl)
        refl)
      refl

complete_gates_example :
    Enters (is_state RunState.searching) run_path × Enters (is_state RunState.finalizing) run_path
complete_gates_example = complete_gates run_path

abbrev diagnosed_path : ExperimentPath ExperimentState.proposed ExperimentState.diagnosed
unfolding experiment_transitions ExperimentState-discrete
diagnosed_path =
    step {t = ExperimentState.full_complete}
      (step {t = ExperimentState.full_running}
        (step {t = ExperimentState.full_reserved}
          (step {t = ExperimentState.cheap_complete}
            (step {t = ExperimentState.cheap_running}
              (step {t = ExperimentState.fixture_valid}
                (step {t = ExperimentState.static_valid}
                  (step {t = ExperimentState.patched}
                    (step {t = ExperimentState.worktree_ready} (step here refl) refl) refl)
                  refl)
                refl)
              refl)
            refl)
          refl)
        refl)
      refl

abbrev promoted_path : ExperimentPath ExperimentState.proposed ExperimentState.promoted
unfolding experiment_transitions ExperimentState-discrete
promoted_path =
    step {t = ExperimentState.official_valid_complete}
      (step {t = ExperimentState.official_valid_running} (step diagnosed_path refl) refl) refl

abbrev confirming_path : ExperimentPath ExperimentState.proposed ExperimentState.confirming
unfolding experiment_transitions ExperimentState-discrete
confirming_path = step diagnosed_path refl

promoted_gate_example : Enters is_promotion_gate promoted_path
promoted_gate_example = promoted_gate promoted_path

confirmation_gate_example : Enters is_diagnosed confirming_path
confirmation_gate_example = confirmation_gate confirming_path refl

-- -0.3333333333333, which is -333333333 billionths.
abbrev minus_third : Float
minus_third = record { mantissa = negsuc 3333333333332; places = 13 }

metric_units_error_example :
    Near (10 ^ 13) (0 * 1000000000) (pos_part (metric_units minus_third) * 10 ^ 13)
    × Near (10 ^ 13) (3333333333333 * 1000000000) (neg_part (metric_units minus_third) * 10 ^ 13)
metric_units_error_example = metric_units_error minus_third

abbrev failures : List (AttemptStatus × String)
failures =
    (AttemptStatus.oom, "full")
    ∷ (AttemptStatus.interrupted, "full")
    ∷ (AttemptStatus.nan, "full")
    ∷ (AttemptStatus.timeout, "full")
    ∷ []

repairs_after_lem_example : repairs_after 2 0 failures ≡ min 2 (0 + count_charged failures)
repairs_after_lem_example = repairs_after_lem 2 0 failures (omega arith)
