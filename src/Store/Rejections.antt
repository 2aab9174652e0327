-- ===== src/Store/Rejections.antt =====
-- src/rex/store/repository.py: `reject_non_improving`, `reject_candidate` and
-- `count_failed_transaction`, which close a hypothesis without an official result.
use tiktok_techjam_recsys_ag.Prelude.{
  ℕ, ◌+◌, Bool, true, false, not, ◌&&◌, Option, none, some, String, ◌==◌, string_eq, option_eq, leb,
  is_some, if◌then◌else◌,
}
use tiktok_techjam_recsys_ag.Prelude.Table.{get, put}
use tiktok_techjam_recsys_ag.Result.{
  Result, ok, repository_error, integrity_error, ◌>>=◌, ◌>>◌, require, require_some, on_row,
}
use tiktok_techjam_recsys_ag.Contracts.{
  ExperimentState, rejected, failed_final, experiment_state_eq,
}
use tiktok_techjam_recsys_ag.Control.StateMachine.{require_experiment_transition}
use tiktok_techjam_recsys_ag.Store.Documents.{Fields, end, field, text, flag, nat, json_eq, look}
use tiktok_techjam_recsys_ag.Store.Schema.{Run, Experiment, Transition, Convergence, Db}
use tiktok_techjam_recsys_ag.Store.Events.{Env, emit}
use tiktok_techjam_recsys_ag.Store.Experiments.{same_transition}
use tiktok_techjam_recsys_ag.Store.Finalist.{of_run}

-- CASE WHEN converged THEN 'epsilon_plateau' ELSE stop_reason END
abbrev pub plateau_reason : Bool → Option String → Option String
plateau_reason true old = some "epsilon_plateau"
plateau_reason false old = old

-- The flags that a decision returns.
pub record Verdict : Type 0 where
  pub idempotent : Bool
  pub non_improvement_streak : ℕ
  pub converged : Bool

abbrev same_rejection : String → ExperimentState → String → Transition → Bool
same_rejection experiment_id expected reason row =
    same_transition experiment_id expected rejected row
    && look "reason" row.payload_json == some (text reason)

abbrev rejection_entry : Env → String → ExperimentState → Fields → Transition
rejection_entry env experiment expected payload = record {
  experiment_id = experiment;
  from_state = expected;
  to_state = rejected;
  payload_json = payload;
  created_at = env.now;
}

abbrev rejected_experiment : Env → String → Experiment → Experiment
rejected_experiment env reason e = record e {
  state = rejected;
  terminal_reason = some reason;
  updated_at = env.now;
}

abbrev pub streak_run : Env → ℕ → Bool → Run → Run
streak_run env streak converged run = record run {
  non_improvement_streak = streak;
  updated_at = env.now;
  stop_reason = plateau_reason converged run.stop_reason;
}

abbrev pub convergence_row : Env → String → String → Convergence
convergence_row env run kind = record {
  run_id = run;
  outcome = kind;
  delta_units = none;
  created_at = env.now;
}

-- On a replay only `idempotent` is returned; the other two flags are then 0 and false here.
unfoldable pub reject_non_improving :
    Env → String → String → ExperimentState → String → ℕ → String → Db → Result (Verdict × Db)
unfolding require_experiment_transition
reject_non_improving env run_id experiment_id expected reason patience idempotency_key db = do
  require_experiment_transition expected rejected
  on_row (get idempotency_key db.transitions)
      (λ duplicate. do
        require (same_rejection experiment_id expected reason duplicate)
            (repository_error "conflicting replay for rejection")
        ok (record { idempotent = true; non_improvement_streak = 0; converged = false }, db))
      (do
        run ←
            require_some (get run_id db.runs)
              (repository_error "run or experiment missing for rejection")
        experiment ←
            require_some (of_run run_id (get experiment_id db.experiments))
              (repository_error "run or experiment missing for rejection")
        require (experiment.state == expected)
            (repository_error "experiment is not in expected state")
        let streak = run.non_improvement_streak + 1
        let done = leb patience streak
        require (not (is_some (get experiment_id db.convergence))) integrity_error
        let payload = field "reason" (text reason) (field "convergence_streak" (nat streak) end)
        ok (
          record { idempotent = false; non_improvement_streak = streak; converged = done },
          emit env run_id "candidate.rejected" experiment_id
              (field "reason" (text reason)
                (field "non_improvement_streak" (nat streak) (field "converged" (flag done) end)))
              (record db {
                experiments =
                    put experiment_id (rejected_experiment env reason experiment) db.experiments;
                convergence =
                    put experiment_id (convergence_row env run_id "rejected") db.convergence;
                transitions =
                    put idempotency_key (rejection_entry env experiment_id expected payload)
                      db.transitions;
                runs = put run_id (streak_run env streak done run) db.runs;
              }),
        ))

abbrev pub count_if : Bool → ℕ
count_if true = 1
count_if false = 0

unfoldable pub reject_candidate :
    Env
    → String
    → String
    → ExperimentState
    → String
    → ℕ
    → String
    → Bool
    → Bool
    → Db
    → Result (Verdict × Db)
unfolding require_experiment_transition
reject_candidate env run_id experiment_id expected reason patience idempotency_key eligible counted
      db =
    do
      require_experiment_transition expected rejected
      on_row (get idempotency_key db.transitions)
          (λ duplicate. do
            require (same_rejection experiment_id expected reason duplicate)
                (repository_error "conflicting replay for rejection")
            run ← require_some (get run_id db.runs) (repository_error "unknown run")
            ok (
              record {
                idempotent = true;
                non_improvement_streak = run.non_improvement_streak;
                converged = run.stop_reason == some "epsilon_plateau";
              },
              db,
            ))
          (do
            experiment ←
                require_some (of_run run_id (get experiment_id db.experiments))
                  (repository_error "candidate is not in the expected rejection state")
            require (experiment.state == expected)
                (repository_error "candidate is not in the expected rejection state")
            run ← require_some (get run_id db.runs) (repository_error "unknown run")
            let streak = run.non_improvement_streak + count_if counted
            let done = eligible && leb patience streak
            require (not (counted && is_some (get experiment_id db.convergence))) integrity_error
            let payload = field "reason" (text reason) (
                field "convergence_counted" (flag counted) (
                  field "convergence_streak" (nat streak)
                    (field "plateau_eligible" (flag eligible) end)))
            ok (
              record { idempotent = false; non_improvement_streak = streak; converged = done },
              emit env run_id "candidate.rejected" experiment_id payload (record db {
                experiments =
                    put experiment_id (rejected_experiment env reason experiment) db.experiments;
                transitions =
                    put idempotency_key (rejection_entry env experiment_id expected payload)
                      db.transitions;
                convergence =
                    if counted
                    then put experiment_id (convergence_row env run_id "rejected_before_official")
                        db.convergence
                    else db.convergence;
                runs = put run_id (streak_run env streak done run) db.runs;
              }),
            ))

unfoldable pub count_failed_transaction :
    Env → String → String → String → ℕ → Db → Result (Verdict × Db)
count_failed_transaction env run_id experiment_id reason patience db = do
  experiment ←
      require_some (of_run run_id (get experiment_id db.experiments))
        (repository_error "only FAILED_FINAL experiments can count as failed transactions")
  require (experiment.state == failed_final)
      (repository_error "only FAILED_FINAL experiments can count as failed transactions")
  run ← require_some (get run_id db.runs) (repository_error "unknown run")
  let streak = run.non_improvement_streak
  on_row (get experiment_id db.convergence)
      (λ prior.
        ok (record { idempotent = true; non_improvement_streak = streak; converged = false }, db))
      (ok (
        record { idempotent = false; non_improvement_streak = streak; converged = false },
        emit env run_id "candidate.failed" experiment_id
            (field "reason" (text reason) (
              field "convergence_streak" (nat streak)
                (field "convergence_counted" (flag false) (field "converged" (flag false) end))))
            (record db {
              convergence =
                  put experiment_id (convergence_row env run_id "invalid_failure") db.convergence;
              runs = put run_id (record run { updated_at = env.now }) db.runs;
            }),
      ))
