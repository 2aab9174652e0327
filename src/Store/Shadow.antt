-- ===== src/Store/Shadow.antt =====
-- src/rex/store/repository.py: `record_shadow_evaluation`.
use tiktok_techjam_recsys_ag.Prelude.{
  ℕ, ◌+◌, Bool, true, false, ◌&&◌, Option, none, some, List, String, ◌==◌, string_eq, option_eq,
  nat_eq, bool_eq, length, leb, if◌then◌else◌,
}
use tiktok_techjam_recsys_ag.Prelude.Int.{ℤ, pos, ◌-ℤ◌, ltb_ℤ, int_eq}
use tiktok_techjam_recsys_ag.Prelude.Decimal.{Float}
use tiktok_techjam_recsys_ag.Prelude.Table.{get, put}
use tiktok_techjam_recsys_ag.Prelude.Texts.{sorted_set}
use tiktok_techjam_recsys_ag.Result.{
  Result, ok, repository_error, ◌>>=◌, ◌>>◌, require, require_some, on_row,
}
use tiktok_techjam_recsys_ag.Contracts.{diagnosed, discovery, experiment_state_eq, phase_eq}
use tiktok_techjam_recsys_ag.Control.Budget.{metric_units}
use tiktok_techjam_recsys_ag.Store.Documents.{end, field, text, flag, nat, int, int_or_null}
use tiktok_techjam_recsys_ag.Store.Schema.{Run, ShadowEvaluation, Db}
use tiktok_techjam_recsys_ag.Store.Events.{Env, emit}
use tiktok_techjam_recsys_ag.Store.Finalist.{of_run, linked_count}
use tiktok_techjam_recsys_ag.Store.Rejections.{plateau_reason}

pub record ShadowReply : Type 0 where
  pub idempotent : Bool
  pub is_new_best : Bool
  pub non_improvement_streak : ℕ
  pub converged : Bool

-- `None if previous_best is None else primary_units - previous_best`
abbrev pub delta_to : Option ℤ → ℤ → Option ℤ
delta_to none units = none
delta_to (some best) units = some (units -ℤ best)

-- `delta_units is None or delta_units > bound`
abbrev pub exceeds : Option ℤ → ℤ → Bool
exceeds none bound = true
exceeds (some delta) bound = ltb_ℤ bound delta

abbrev same_shadow : String → String → ℤ → Bool → ShadowEvaluation → Bool
same_shadow run_id family units supported row =
    row.run_id == run_id
    && row.family == family
    && row.primary_units == units
    && row.supported == supported

-- The columns of the run that one shadow evaluation updates.
abbrev pub shadow_run : Env → String → ℤ → Bool → ℕ → Bool → Run → Run
shadow_run env experiment_id units is_new_best streak converged run = record run {
  shadow_best_primary_units = if is_new_best then some units else run.shadow_best_primary_units;
  shadow_champion_experiment_id =
      if is_new_best then some experiment_id else run.shadow_champion_experiment_id;
  non_improvement_streak = streak;
  updated_at = env.now;
  stop_reason = plateau_reason converged run.stop_reason;
}

unfoldable pub record_shadow_evaluation :
    Env
    → String
    → String
    → String
    → Float
    → Bool
    → List String
    → Float
    → ℕ
    → ℕ
    → ℕ
    → Db
    → Result (ShadowReply × Db)
record_shadow_evaluation env run_id experiment_id family primary supported evidence_artifact_ids
      epsilon patience valid_family_count minimum_valid_families db =
    do
      let evidence = sorted_set evidence_artifact_ids
      let units = metric_units primary
      run ←
          require_some (get run_id db.runs) (repository_error "run or shadow experiment is missing")
      experiment ←
          require_some (of_run run_id (get experiment_id db.experiments))
            (repository_error "run or shadow experiment is missing")
      on_row (get experiment_id db.shadow_evaluations)
          (λ existing. do
            require (same_shadow run_id family units supported existing)
                (repository_error "conflicting replay for shadow evaluation")
            ok (
              record {
                idempotent = true;
                is_new_best = run.shadow_champion_experiment_id == some experiment_id;
                non_improvement_streak = run.non_improvement_streak;
                converged = run.stop_reason == some "epsilon_plateau";
              },
              db,
            ))
          (do
            require (experiment.state == diagnosed)
                (repository_error "shadow evaluation requires a diagnosed experiment")
            require (run.validation_phase == discovery)
                (repository_error "shadow evaluation cannot be recorded after discovery closes")
            require (linked_count experiment_id evidence db == length evidence)
                (repository_error "shadow evaluation cites missing experiment evidence")
            let delta = delta_to run.shadow_best_primary_units units
            let new_best = supported && exceeds delta (pos 0)
            let meaningful = new_best && exceeds delta (metric_units epsilon)
            let streak = if meaningful then 0 else run.non_improvement_streak + 1
            let done = leb patience streak && leb minimum_valid_families valid_family_count
            let row : ShadowEvaluation = record {
              run_id = run_id;
              family = family;
              primary_units = units;
              supported = supported;
              delta_units = delta;
              evidence_json = evidence;
              created_at = env.now;
            }
            ok (
              record {
                idempotent = false;
                is_new_best = new_best;
                non_improvement_streak = streak;
                converged = done;
              },
              emit env run_id "shadow.evaluated" experiment_id
                  (field "family" (text family) (
                    field "primary_units" (int units) (
                      field "supported" (flag supported) (
                        field "delta_units" (int_or_null delta) (
                          field "is_new_best" (flag new_best) (
                            field "non_improvement_streak" (nat streak) (
                              field "converged" (flag done)
                                (field "valid_family_count" (nat valid_family_count) end))))))))
                  (record db {
                    shadow_evaluations = put experiment_id row db.shadow_evaluations;
                    runs =
                        put run_id (shadow_run env experiment_id units new_best streak done run)
                          db.runs;
                  }),
            ))
