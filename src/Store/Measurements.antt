-- ===== src/Store/Measurements.antt =====
-- src/rex/store/repository.py: `record_metrics`.
pub mod Official
use tiktok_techjam_recsys_ag.Prelude.{
  ℕ, ◌+◌, Bool, not, ◌&&◌, ◌||◌, Option, some, String, ◌==◌, string_eq, option_eq, nat_eq, leb,
  if◌then◌else◌,
}
use tiktok_techjam_recsys_ag.Prelude.Int.{int_eq}
use tiktok_techjam_recsys_ag.Prelude.Decimal.{float_eq}
use tiktok_techjam_recsys_ag.Prelude.Table.{get, put}
use tiktok_techjam_recsys_ag.Result.{
  Result, ok, repository_error, integrity_error, ◌>>=◌, ◌>>◌, require, require_some, on_row,
}
use tiktok_techjam_recsys_ag.Contracts.{finalist_locked, phase_eq}
use tiktok_techjam_recsys_ag.Control.Budget.{metric_units}
use tiktok_techjam_recsys_ag.Store.Documents.{
  Fields, end, field, text, nat, real, text_or_null, int_or_null,
}
use tiktok_techjam_recsys_ag.Store.Schema.{Run, Metric, MetricKey, metric_key_eq, Db}
use tiktok_techjam_recsys_ag.Store.Events.{Env, emit}
use tiktok_techjam_recsys_ag.Store.Runs.{Metrics}
use tiktok_techjam_recsys_ag.Store.Experiments.{references}

abbrev pub key_of : String → Metrics → MetricKey
key_of experiment m = record {
  experiment_id = experiment;
  split = m.split;
  fold = m.fold;
  seed = m.seed;
}

abbrev pub row_of : Option String → Metrics → Metric
row_of attempt m = record {
  attempt_id = attempt;
  evaluator_sha256 = m.evaluator_sha256;
  gauc = m.gauc;
  ndcg5 = m.ndcg5;
  primary_score = m.primary;
  primary_units = metric_units m.primary;
  metric_rows = m.metric_rows;
  users = m.users;
}

abbrev same_metric : Option String → Metrics → Metric → Bool
same_metric attempt m row =
    row.attempt_id == attempt
    && row.evaluator_sha256 == m.evaluator_sha256
    && row.gauc == m.gauc
    && row.ndcg5 == m.ndcg5
    && row.primary_score == m.primary
    && row.primary_units == metric_units m.primary
    && row.metric_rows == m.metric_rows
    && row.users == m.users

-- metrics.model_dump(mode="json", by_alias=True)
abbrev dump : Metrics → Fields
dump m = field "GAUC" (real m.gauc) (
    field "nDCG@5" (real m.ndcg5) (
      field "primary" (real m.primary) (
        field "users" (nat m.users) (
          field "rows" (nat m.metric_rows) (
            field "evaluator_sha256" (text m.evaluator_sha256) (
              field "split" (text m.split)
                (field "fold" (text_or_null m.fold) (field "seed" (int_or_null m.seed) end))))))))

-- An official evaluation of a production candidate is for the locked finalist alone.
abbrev pub may_validate : String → Option String → Run → Bool
may_validate experiment_id kind run =
    not (kind == some "production_search")
    || run.validation_phase == finalist_locked && run.finalist_experiment_id == some experiment_id

unfoldable pub record_metrics : Env → String → Metrics → Option String → ℕ → Db → Result Db
record_metrics env experiment_id m attempt_id max_official_evaluations db = do
  experiment ←
      require_some (get experiment_id db.experiments) (repository_error "unknown experiment")
  run ← require_some (get experiment.run_id db.runs) (repository_error "unknown experiment")
  let official = m.split == "valid"
  on_row (get (key_of experiment_id m) db.metrics)
      (λ prior. do
        require (same_metric attempt_id m prior) (repository_error "conflicting replay for metrics")
        ok db)
      (do
        require (not (official && leb max_official_evaluations run.official_evaluation_count))
            (repository_error "official evaluation cap reached")
        require (not official || may_validate experiment_id experiment.experiment_kind run)
            (repository_error "official validation is reserved for the atomically locked finalist")
        require (references (λ key. get key db.attempts) attempt_id) integrity_error
        let counted : Run = record run {
          official_evaluation_count = run.official_evaluation_count + 1;
          updated_at = env.now;
        }
        ok (
            emit env experiment.run_id "metrics.recorded" experiment_id (dump m) (record db {
              metrics = put (key_of experiment_id m) (row_of attempt_id m) db.metrics;
              runs = if official then put experiment.run_id counted db.runs else db.runs;
            })))
