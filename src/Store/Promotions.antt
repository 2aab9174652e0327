-- ===== src/Store/Promotions.antt =====
-- src/rex/store/repository.py: `promote_search_candidate` and `promote_validated`.
use Prim.Native.String.{◌++◌ as join}
use tiktok_techjam_recsys_ag.Prelude.{
  ℕ, Bool, true, false, not, ◌&&◌, ◌||◌, Option, none, some, List, [], ◌∷◌, ◌++◌, String, ◌==◌,
  string_eq, option_eq, nat_eq, length, is_some, if◌then◌else◌,
}
use tiktok_techjam_recsys_ag.Prelude.Decimal.{Float}
use tiktok_techjam_recsys_ag.Prelude.Table.{get, put}
use tiktok_techjam_recsys_ag.Prelude.Texts.{sorted_set}
use tiktok_techjam_recsys_ag.Result.{
  Result, ok, repository_error, integrity_error, ◌>>=◌, ◌>>◌, require, require_some, on_row,
}
use tiktok_techjam_recsys_ag.Contracts.{
  ExperimentState, official_valid_complete, submission_valid, promoted, rejected,
  experiment_state_eq,
}
use tiktok_techjam_recsys_ag.Control.StateMachine.{require_experiment_transition}
use tiktok_techjam_recsys_ag.Control.Budget.{TrackerUpdate, metric_units, update_metric_trackers}
use tiktok_techjam_recsys_ag.Store.Documents.{
  Fields, end, field, texts, flag, nat, int, real, json_eq, look,
}
use tiktok_techjam_recsys_ag.Store.Schema.{
  Run, Experiment, Transition, Convergence, Promotion, SearchPromotion, Db,
}
use tiktok_techjam_recsys_ag.Store.Events.{Env, emit}
use tiktok_techjam_recsys_ag.Store.Experiments.{same_transition}
use tiktok_techjam_recsys_ag.Store.Finalist.{of_run, linked_count, mark_official_evaluated}
use tiktok_techjam_recsys_ag.Store.Rejections.{plateau_reason}

-- The dictionary that a promotion returns; `none` is `{"idempotent": True}`.
abbrev pub PromotionReply : Type 0
PromotionReply = Option TrackerUpdate

-- A replay names the same experiment, either outcome, and the same metric.
abbrev same_promotion : String → ExperimentState → Float → Transition → Bool
same_promotion experiment_id from primary row =
    (same_transition experiment_id from promoted row
      || same_transition experiment_id from rejected row)
    && look "primary" row.payload_json == some (real primary)

abbrev pub outcome_state : Bool → ExperimentState
outcome_state true = promoted
outcome_state false = rejected

abbrev decided_experiment : Env → Bool → String → Experiment → Experiment
decided_experiment env is_new_best why e = record e {
  state = outcome_state is_new_best;
  updated_at = env.now;
  terminal_reason = if is_new_best then none else some why;
}

abbrev decided_entry : Env → String → ExperimentState → Bool → Fields → Transition
decided_entry env experiment from is_new_best payload = record {
  experiment_id = experiment;
  from_state = from;
  to_state = outcome_state is_new_best;
  payload_json = payload;
  created_at = env.now;
}

-- The columns of the run that the trackers update.
abbrev pub tracked_run : Env → String → TrackerUpdate → Run → Run
tracked_run env experiment_id update run = record run {
  best_primary_units = some update.best_primary_units;
  best_ever_experiment_id =
      if update.is_new_best then some experiment_id else run.best_ever_experiment_id;
  non_improvement_streak = update.non_improvement_streak;
  updated_at = env.now;
  stop_reason = plateau_reason update.converged run.stop_reason;
}

abbrev pub search_run : Env → String → TrackerUpdate → Run → Run
search_run env experiment_id update run = record (tracked_run env experiment_id update run) {
  search_champion_experiment_id =
      if update.is_new_best then some experiment_id else run.search_champion_experiment_id;
}

abbrev pub trackers : Run → Float → Float → ℕ → TrackerUpdate
trackers run primary epsilon patience =
    update_metric_trackers run.best_primary_units primary run.non_improvement_streak
      (metric_units epsilon) patience

-- The last two steps of a search promotion: the phase of the run, then the event.
unfoldable pub close_search_promotion :
    Env
    → String
    → String
    → List String
    → String
    → TrackerUpdate
    → Fields
    → Db
    → Result (PromotionReply × Db)
close_search_promotion env run_id experiment_id evidence idempotency_key update payload db = do
  db' ←
      mark_official_evaluated env run_id experiment_id evidence
        (join idempotency_key ":validation-phase") db
  ok (some update, emit env run_id "search_candidate.validated" experiment_id payload db')

unfoldable pub promote_search_candidate :
    Env
    → String
    → String
    → Float
    → List String
    → Float
    → ℕ
    → String
    → Db
    → Result (PromotionReply × Db)
unfolding require_experiment_transition
promote_search_candidate env run_id experiment_id primary evidence_artifact_ids epsilon patience
      idempotency_key db =
    do
      let evidence = sorted_set evidence_artifact_ids
      on_row (get idempotency_key db.transitions)
          (λ duplicate. do
            require (same_promotion experiment_id official_valid_complete primary duplicate)
                (repository_error "conflicting replay for search promotion")
            ok (none, db))
          (do
            run ←
                require_some (get run_id db.runs)
                  (repository_error "run or candidate missing for search promotion")
            experiment ←
                require_some (of_run run_id (get experiment_id db.experiments))
                  (repository_error "run or candidate missing for search promotion")
            require (experiment.state == official_valid_complete)
                (repository_error "candidate must complete official validation before promotion")
            require (linked_count experiment_id evidence db == length evidence)
                (repository_error "search promotion cites missing candidate evidence")
            let update = trackers run primary epsilon patience
            require_experiment_transition official_valid_complete (outcome_state update.is_new_best)
            require (not (is_some (get experiment_id db.convergence))) integrity_error
            let payload = field "primary" (real primary) (
                field "delta_units" (int update.delta_units) (
                  field "is_new_best" (flag update.is_new_best) (
                    field "convergence_streak" (nat update.non_improvement_streak) (
                      field "evidence_artifact_ids" (texts evidence)
                        (field "test_submission_created" (flag false) end)))))
            let award : SearchPromotion = record {
              run_id = run_id;
              previous_experiment_id = run.search_champion_experiment_id;
              experiment_id = experiment_id;
              primary_units = update.best_primary_units;
              evidence_json = evidence;
              created_at = env.now;
            }
            let closing : Convergence = record {
              run_id = run_id;
              outcome = if update.is_new_best then "promoted" else "official_rejected";
              delta_units = some update.delta_units;
              created_at = env.now;
            }
            close_search_promotion env run_id experiment_id evidence idempotency_key update payload
                (record db {
                  experiments =
                      put experiment_id
                        (decided_experiment env update.is_new_best
                          "not better than validation incumbent" experiment)
                        db.experiments;
                  transitions =
                      put idempotency_key
                        (decided_entry env experiment_id official_valid_complete update.is_new_best
                          payload)
                        db.transitions;
                  search_promotions =
                      if update.is_new_best
                      then db.search_promotions ++ award ∷ []
                      else db.search_promotions;
                  convergence = put experiment_id closing db.convergence;
                  runs = put run_id (search_run env experiment_id update run) db.runs;
                }))

pub record PromotionArtifacts : Type 0 where
  pub checkpoint_artifact_id : String
  pub prediction_artifact_id : String
  pub submission_artifact_id : String
  pub validator_artifact_id : String

abbrev pub artifact_ids : PromotionArtifacts → List String
artifact_ids a =
    a.checkpoint_artifact_id ∷ a.prediction_artifact_id ∷ a.submission_artifact_id
    ∷ a.validator_artifact_id ∷ []

unfoldable pub promote_validated :
    Env
    → String
    → String
    → Float
    → Float
    → ℕ
    → PromotionArtifacts
    → String
    → Db
    → Result (PromotionReply × Db)
unfolding require_experiment_transition
promote_validated env run_id experiment_id primary epsilon patience given idempotency_key db =
    on_row (get idempotency_key db.transitions)
      (λ duplicate. do
        require (same_promotion experiment_id submission_valid primary duplicate)
            (repository_error "conflicting replay for promotion")
        ok (none, db))
      (do
        run ←
            require_some (get run_id db.runs)
              (repository_error "run or experiment not found for promotion")
        experiment ←
            require_some (of_run run_id (get experiment_id db.experiments))
              (repository_error "run or experiment not found for promotion")
        require (experiment.state == submission_valid)
            (repository_error "candidate must be SUBMISSION_VALID before promotion")
        require (linked_count experiment_id (artifact_ids given) db == length (artifact_ids given))
            (repository_error "promotion artifacts are missing or belong to another experiment")
        let update = trackers run primary epsilon patience
        require_experiment_transition submission_valid (outcome_state update.is_new_best)
        let payload =
            field "primary" (real primary) (field "delta_units" (int update.delta_units) end)
        let award : Promotion = record {
          run_id = run_id;
          previous_experiment_id = run.best_ever_experiment_id;
          experiment_id = experiment_id;
          primary_units = update.best_primary_units;
          checkpoint_artifact_id = given.checkpoint_artifact_id;
          prediction_artifact_id = given.prediction_artifact_id;
          submission_artifact_id = given.submission_artifact_id;
          validator_artifact_id = given.validator_artifact_id;
          created_at = env.now;
        }
        ok (
          some update,
          emit env run_id "candidate.validated" experiment_id
              (field "primary" (real primary) (
                field "delta_units" (int update.delta_units) (
                  field "is_new_best" (flag update.is_new_best) (
                    field "streak" (nat update.non_improvement_streak)
                      (field "converged" (flag update.converged) end)))))
              (record db {
                experiments =
                    put experiment_id
                      (decided_experiment env update.is_new_best
                        "not better than validated incumbent" experiment)
                      db.experiments;
                transitions =
                    put idempotency_key
                      (decided_entry env experiment_id submission_valid update.is_new_best payload)
                      db.transitions;
                promotions =
                    if update.is_new_best then db.promotions ++ award ∷ [] else db.promotions;
                runs = put run_id (tracked_run env experiment_id update run) db.runs;
              }),
        ))
