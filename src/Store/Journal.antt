-- ===== src/Store/Journal.antt =====
-- src/rex/store/repository.py: `record_llm_call`, `record_resource_usage`, `record_lesson` and
-- `record_intervention`, the append-only records of a run.
use Prim.Native.String.{◌++◌ as join}
use tiktok_techjam_recsys_ag.Prelude.{
  ◌+◌, Bool, true, false, not, ◌&&◌, Option, none, some, List, String, ◌==◌, string_eq, option_eq,
  nat_eq, bool_eq, list_eq, length, is_some,
}
use tiktok_techjam_recsys_ag.Prelude.Decimal.{float_eq, zero_float}
use tiktok_techjam_recsys_ag.Prelude.Table.{get, put}
use tiktok_techjam_recsys_ag.Result.{
  Result, ok, repository_error, integrity_error, ◌>>◌, require, on_row,
}
use tiktok_techjam_recsys_ag.Store.Documents.{
  Fields, end, field, text, texts, flag, nat, text_or_null, fields_eq,
}
use tiktok_techjam_recsys_ag.Store.Schema.{LlmCall, ResourceUsage, Lesson, Intervention, Db}
use tiktok_techjam_recsys_ag.Store.Events.{Env, emit}
use tiktok_techjam_recsys_ag.Store.Experiments.{references}
use tiktok_techjam_recsys_ag.Store.Finalist.{linked_count}

abbrev same_llm_call : LlmCall → LlmCall → Bool
same_llm_call given row =
    row.run_id == given.run_id
    && row.experiment_id == given.experiment_id
    && row.role == given.role
    && row.provider == given.provider
    && row.model == given.model
    && row.request_id == given.request_id
    && row.request_artifact_id == given.request_artifact_id
    && row.response_artifact_id == given.response_artifact_id
    && row.schema_valid == given.schema_valid
    && row.input_tokens == given.input_tokens
    && row.output_tokens == given.output_tokens
    && row.wall_seconds == given.wall_seconds
    && row.error == given.error

-- f"llm:{call_id}"
abbrev pub llm_key : String → String
llm_key call_id = join "llm:" call_id

abbrev pub llm_usage : LlmCall → ResourceUsage
llm_usage given = record {
  run_id = given.run_id;
  experiment_id = given.experiment_id;
  attempt_id = none;
  scope = "llm";
  wall_seconds = given.wall_seconds;
  cpu_user_seconds = zero_float;
  cpu_system_seconds = zero_float;
  peak_rss_bytes = 0;
  gpu_seconds = zero_float;
  llm_tokens = given.input_tokens + given.output_tokens;
}

-- The row holds the arguments of the call.
unfoldable pub record_llm_call : Env → String → LlmCall → Db → Result Db
record_llm_call env call_id given db =
    on_row (get call_id db.llm_calls)
      (λ prior. do
        require (same_llm_call given prior) (repository_error "conflicting replay for LLM call")
        ok db)
      (do
        require
            (is_some (get given.run_id db.runs)
              && references (λ key. get key db.experiments) given.experiment_id)
            integrity_error
        require (not (is_some (get (llm_key call_id) db.resource_usage))) integrity_error
        ok (
            emit env given.run_id "llm.completed" call_id
              (field "experiment_id" (text_or_null given.experiment_id) (
                field "role" (text given.role) (
                  field "provider" (text given.provider) (
                    field "model" (text given.model) (
                      field "schema_valid" (flag given.schema_valid) (
                        field "tokens" (nat (given.input_tokens + given.output_tokens))
                          (field "error" (text_or_null given.error) end)))))))
              (record db {
                llm_calls = put call_id given db.llm_calls;
                resource_usage = put (llm_key call_id) (llm_usage given) db.resource_usage;
              })))

abbrev same_usage : ResourceUsage → ResourceUsage → Bool
same_usage given row =
    row.run_id == given.run_id
    && row.experiment_id == given.experiment_id
    && row.attempt_id == given.attempt_id
    && row.scope == given.scope
    && row.wall_seconds == given.wall_seconds
    && row.cpu_user_seconds == given.cpu_user_seconds
    && row.cpu_system_seconds == given.cpu_system_seconds
    && row.peak_rss_bytes == given.peak_rss_bytes
    && row.gpu_seconds == given.gpu_seconds
    && row.llm_tokens == given.llm_tokens

-- Returns the flag `idempotent`.
unfoldable pub record_resource_usage : String → ResourceUsage → Db → Result (Bool × Db)
record_resource_usage resource_key given db =
    on_row (get resource_key db.resource_usage)
      (λ prior. do
        require (same_usage given prior) (repository_error "conflicting replay for resource usage")
        ok (true, db))
      (do
        require
            (is_some (get given.run_id db.runs)
              && references (λ key. get key db.experiments) given.experiment_id
              && references (λ key. get key db.attempts) given.attempt_id)
            integrity_error
        ok (false, record db { resource_usage = put resource_key given db.resource_usage }))

abbrev same_lesson : String → String → String → String → List String → Lesson → Bool
same_lesson run_id experiment_id scope lesson evidence row =
    row.run_id == run_id
    && row.experiment_id == experiment_id
    && row.scope == scope
    && row.lesson == lesson
    && row.evidence_json == evidence

unfoldable pub record_lesson :
    Env → String → String → String → String → String → List String → Db → Result Db
record_lesson env lesson_id run_id experiment_id scope lesson evidence db = do
  require (linked_count experiment_id evidence db == length evidence)
      (repository_error "lesson cites missing evidence artifacts")
  on_row (get lesson_id db.lessons)
      (λ prior. do
        require (same_lesson run_id experiment_id scope lesson evidence prior)
            (repository_error "conflicting replay for lesson")
        ok db)
      (do
        require (is_some (get run_id db.runs) && is_some (get experiment_id db.experiments))
            integrity_error
        let row : Lesson = record {
          run_id = run_id;
          experiment_id = experiment_id;
          scope = scope;
          lesson = lesson;
          evidence_json = evidence;
          created_at = env.now;
        }
        ok (
            emit env run_id "lesson.recorded" lesson_id
              (field "experiment_id" (text experiment_id)
                (field "scope" (text scope) (field "evidence" (texts evidence) end)))
              (record db { lessons = put lesson_id row db.lessons })))

-- `evidence or {}`
abbrev given_evidence : Option Fields → Fields
given_evidence none = end
given_evidence (some evidence) = evidence

abbrev same_intervention : String → String → String → String → Fields → Intervention → Bool
same_intervention run_id actor action reason evidence row =
    row.run_id == run_id
    && row.actor == actor
    && row.action == action
    && row.reason == reason
    && row.evidence_json == evidence

unfoldable pub record_intervention :
    Env → String → String → String → String → String → Option Fields → Db → Result Db
record_intervention env intervention_id run_id actor action reason evidence db = do
  let document = given_evidence evidence
  on_row (get intervention_id db.interventions)
      (λ prior. do
        require (same_intervention run_id actor action reason document prior)
            (repository_error "conflicting replay for intervention")
        ok db)
      (do
        require (is_some (get run_id db.runs)) integrity_error
        let row : Intervention = record {
          run_id = run_id;
          actor = actor;
          action = action;
          reason = reason;
          evidence_json = document;
          created_at = env.now;
        }
        ok (
            emit env run_id "intervention.recorded" intervention_id
              (field "actor" (text actor)
                (field "action" (text action) (field "reason" (text reason) end)))
              (record db { interventions = put intervention_id row db.interventions })))
