-- ===== src/Store/Finalist.antt =====
-- src/rex/store/repository.py: `lock_validation_finalist` and `_mark_official_evaluated`, the one-way
-- validation phase of a run.
use tiktok_techjam_recsys_ag.Prelude.{
  ℕ, Bool, true, false, not, ◌&&◌, ◌||◌, Option, none, some, List, String, ◌==◌, map, string_eq,
  option_eq, nat_eq, list_eq, any, length, contains, filter_by, count_distinct, is_some,
  if◌then◌else◌,
}
use tiktok_techjam_recsys_ag.Prelude.Table.{get, put, rows}
use tiktok_techjam_recsys_ag.Prelude.Texts.{sorted_set}
use tiktok_techjam_recsys_ag.Result.{
  Result, ok, repository_error, integrity_error, ◌>>=◌, ◌>>◌, require, require_some, on_row,
}
use tiktok_techjam_recsys_ag.Contracts.{
  ValidationPhase, discovery, finalist_locked, official_evaluated, phase_eq, diagnosed,
  experiment_state_eq,
}
use tiktok_techjam_recsys_ag.Store.Documents.{end, field, texts}
use tiktok_techjam_recsys_ag.Store.Schema.{Experiment, PhaseTransition, ShadowEvaluation, Db}
use tiktok_techjam_recsys_ag.Store.Events.{Env, emit}

-- SELECT COUNT(DISTINCT artifact_id) FROM artifact_links WHERE experiment_id=? AND artifact_id IN (…)
abbrev pub linked_count : String → List String → Db → ℕ
linked_count experiment_id evidence db = count_distinct (
    map (λ l. l.artifact_id)
      (filter_by (λ l. l.experiment_id == some experiment_id && contains l.artifact_id evidence)
        (rows db.artifact_links)))

-- SELECT … FROM experiments WHERE run_id=? AND experiment_id=?
abbrev pub of_run : String → Option Experiment → Option Experiment
of_run run_id none = none
of_run run_id (some e) = if e.run_id == run_id then some e else none

-- PRIMARY KEY(run_id, to_phase)
abbrev pub phase_taken : String → ValidationPhase → Db → Bool
phase_taken run_id phase db =
    any (λ t. t.run_id == run_id && t.to_phase == phase) (rows db.phase_transitions)

abbrev pub has_support : Option ShadowEvaluation → Bool
has_support none = false
has_support (some shadow) = shadow.supported

abbrev same_lock : String → String → List String → PhaseTransition → Bool
same_lock run_id experiment_id evidence row =
    row.run_id == run_id
    && row.from_phase == discovery
    && row.to_phase == finalist_locked
    && row.finalist_experiment_id == some experiment_id
    && row.evidence_json == evidence

-- Returns the flag `idempotent`; the phase beside it is always FINALIST_LOCKED.
unfoldable pub lock_validation_finalist :
    Env → String → String → List String → String → Db → Result (Bool × Db)
lock_validation_finalist env run_id experiment_id evidence_artifact_ids idempotency_key db = do
  let evidence = sorted_set evidence_artifact_ids
  on_row (get idempotency_key db.phase_transitions)
      (λ duplicate. do
        require (same_lock run_id experiment_id evidence duplicate)
            (repository_error "conflicting replay for validation finalist lock")
        ok (true, db))
      (do
        run ←
            require_some (get run_id db.runs)
              (repository_error "run or validation finalist is missing")
        experiment ←
            require_some (of_run run_id (get experiment_id db.experiments))
              (repository_error "run or validation finalist is missing")
        require (run.validation_phase == discovery)
            (repository_error "cannot lock a finalist from this validation phase")
        require (experiment.state == diagnosed)
            (repository_error "validation finalist must have completed shadow diagnosis")
        require
            (not (experiment.experiment_kind == some "production_search")
              || has_support (get experiment_id db.shadow_evaluations))
            (repository_error "validation finalist lacks supported full-shadow evidence")
        require (run.official_evaluation_count == 0)
            (repository_error "official validation was already consumed")
        require (linked_count experiment_id evidence db == length evidence)
            (repository_error "finalist lock cites missing experiment evidence")
        require (not (phase_taken run_id finalist_locked db)) integrity_error
        let entry : PhaseTransition = record {
          run_id = run_id;
          from_phase = discovery;
          to_phase = finalist_locked;
          finalist_experiment_id = some experiment_id;
          evidence_json = evidence;
          created_at = env.now;
        }
        let run' = record run {
          validation_phase = finalist_locked;
          finalist_experiment_id = some experiment_id;
          updated_at = env.now;
        }
        ok (
          false,
          emit env run_id "validation.finalist_locked" experiment_id
              (field "evidence_artifact_ids" (texts evidence) end)
              (record db {
                phase_transitions = put idempotency_key entry db.phase_transitions;
                runs = put run_id run' db.runs;
              }),
        ))

unfoldable pub mark_official_evaluated :
    Env → String → String → List String → String → Db → Result Db
mark_official_evaluated env run_id experiment_id evidence idempotency_key db = do
  run ← require_some (get run_id db.runs) (repository_error "unknown run")
  if run.validation_phase == official_evaluated
      then (do
        require (run.finalist_experiment_id == some experiment_id)
            (repository_error "official evaluation finalist identity changed")
        ok db)
      else (do
        require
            (run.validation_phase == finalist_locked
              && run.finalist_experiment_id == some experiment_id)
            (repository_error "official evaluation is not bound to the locked finalist")
        require (not (is_some (get idempotency_key db.phase_transitions))) integrity_error
        require (not (phase_taken run_id official_evaluated db)) integrity_error
        let entry : PhaseTransition = record {
          run_id = run_id;
          from_phase = finalist_locked;
          to_phase = official_evaluated;
          finalist_experiment_id = some experiment_id;
          evidence_json = evidence;
          created_at = env.now;
        }
        let run' = record run {
          validation_phase = official_evaluated;
          official_evaluated_at = some env.now;
          updated_at = env.now;
        }
        ok (record db {
          phase_transitions = put idempotency_key entry db.phase_transitions;
          runs = put run_id run' db.runs;
        }))
