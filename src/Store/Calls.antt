-- ===== src/Store/Calls.antt =====
-- The writing calls of the repository as data, and a history of calls: each is one transaction
-- (`Database.transaction` of src/rex/store/db.py), which a raise rolls back.
pub mod Chained
pub mod Moved
pub mod Moves
pub mod Lifecycle
pub mod Exclusive
pub mod Advances
pub mod Phases
use tiktok_techjam_recsys_ag.Prelude.{ℕ, ◌≡◌, refl, Bool, Option, List, [], ◌∷◌, String}
use tiktok_techjam_recsys_ag.Prelude.Int.{ℤ}
use tiktok_techjam_recsys_ag.Prelude.Decimal.{Float}
use tiktok_techjam_recsys_ag.Result.{Result, ok, err, ◌>>=◌}
use tiktok_techjam_recsys_ag.Result.Ensures.{Ensures, Ensures-ok, Ensures-err}
use tiktok_techjam_recsys_ag.Contracts.{RunState, ExperimentState, AttemptStatus}
use tiktok_techjam_recsys_ag.Store.Documents.{Fields}
use tiktok_techjam_recsys_ag.Store.Schema.{RepairId, LlmCall, ResourceUsage, Db}
use tiktok_techjam_recsys_ag.Store.Events.{Env}
use tiktok_techjam_recsys_ag.Store.Runs
use tiktok_techjam_recsys_ag.Store.Runs.{RunSpec, Metrics}
use tiktok_techjam_recsys_ag.Store.Experiments
use tiktok_techjam_recsys_ag.Store.Experiments.{Proposal, Provenance}
use tiktok_techjam_recsys_ag.Store.Finalist
use tiktok_techjam_recsys_ag.Store.Artifacts
use tiktok_techjam_recsys_ag.Store.Artifacts.{ArtifactRef}
use tiktok_techjam_recsys_ag.Store.Attempts
use tiktok_techjam_recsys_ag.Store.Attempts.{RunResult}
use tiktok_techjam_recsys_ag.Store.Repairs
use tiktok_techjam_recsys_ag.Store.Measurements
use tiktok_techjam_recsys_ag.Store.Rejections
use tiktok_techjam_recsys_ag.Store.Shadow
use tiktok_techjam_recsys_ag.Store.Promotions
use tiktok_techjam_recsys_ag.Store.Sessions
use tiktok_techjam_recsys_ag.Store.Sessions.{Host}
use tiktok_techjam_recsys_ag.Store.Journal
use tiktok_techjam_recsys_ag.Store.Promotions.{PromotionArtifacts}

pub data Call : Type 0 where
  create_run : RunSpec → Call
  transition_run : String → RunState → RunState → Option String → Call
  establish_baseline : String → Metrics → List String → Call
  create_experiment : String → Proposal → String → ℕ → Provenance → Call
  record_workspace : String → String → String → Option String → Option String → Call
  transition_experiment : String → ExperimentState → ExperimentState → Fields → String → Call
  lock_finalist : String → String → List String → String → Call
  register_artifact : String → ArtifactRef → Option String → Option String → Call
  reserve_attempt : String → String → String → ℕ → Option String → Option String → Call
  record_attempt : RunResult → String → ℕ → Call
  reserve_repair : String → String → AttemptStatus → Fields → ℕ → Call
  complete_repair : RepairId → List String → Call
  apply_revision : RepairId → String → String → Call
  record_metrics : String → Metrics → Option String → ℕ → Call
  reject_non_improving : String → String → ExperimentState → String → ℕ → String → Call
  reject_candidate : String → String → ExperimentState → String → ℕ → String → Bool → Bool → Call
  count_failed : String → String → String → ℕ → Call
  record_shadow : String → String → String → Float → Bool → List String → Float → ℕ → ℕ → ℕ → Call
  promote_search : String → String → Float → List String → Float → ℕ → String → Call
  promote_validated : String → String → Float → Float → ℕ → PromotionArtifacts → String → Call
  open_session :
      Host
      → String
      → String
      → Option ℤ
      → Option String
      → Option Float
      → List String
      → Option ℕ
      → Call
  heartbeat : String → Float → Option String → Option ℕ → Call
  close_session : String → String → Option Float → Option String → Option ℕ → Call
  llm_call : String → LlmCall → Call
  resource_usage : String → ResourceUsage → Call
  lesson : String → String → String → String → String → List String → Call
  intervention : String → String → String → String → String → Option Fields → Call

-- The database behind a reply.
unfoldable pub state_of : {A : Type 0} → Result (A × Db) → Result Db
state_of (ok r) = ok r.1
state_of (err e) = err e

unfoldable pub perform : Env → Call → Db → Result Db
unfolding state_of
perform env (Call.create_run spec) db = Runs.create_run env spec db
perform env (Call.transition_run run from to reason) db =
    Runs.transition_run env run from to reason db
perform env (Call.establish_baseline run m evidence) db =
    state_of (Runs.establish_baseline env run m evidence db)
perform env (Call.create_experiment run proposal commit limit given) db =
    state_of (Experiments.create_experiment env run proposal commit limit given db)
perform env (Call.record_workspace e path branch commit config) db =
    state_of (Experiments.record_experiment_workspace env e path branch commit config db)
perform env (Call.transition_experiment e from to payload key) db =
    Experiments.transition_experiment env e from to payload key db
perform env (Call.lock_finalist run e evidence key) db =
    state_of (Finalist.lock_validation_finalist env run e evidence key db)
perform env (Call.register_artifact separator ref e attempt) db =
    state_of (Artifacts.register_artifact env separator ref e attempt db)
perform env (Call.reserve_attempt attempt e rung number command commit) db =
    state_of (Attempts.reserve_attempt env attempt e rung number command commit db)
perform env (Call.record_attempt result rung number) db =
    Attempts.record_attempt env result rung number db
perform env (Call.reserve_repair e phase failure plan maximum) db =
    state_of (Repairs.reserve_experiment_repair env e phase failure plan maximum db)
perform env (Call.complete_repair id evidence) db =
    state_of (Repairs.complete_experiment_repair env id evidence db)
perform env (Call.apply_revision id commit artifact) db =
    state_of (Repairs.apply_experiment_repair_revision env id commit artifact db)
perform env (Call.record_metrics e m attempt cap) db =
    Measurements.record_metrics env e m attempt cap db
perform env (Call.reject_non_improving run e from reason patience key) db =
    state_of (Rejections.reject_non_improving env run e from reason patience key db)
perform env (Call.reject_candidate run e from reason patience key eligible counted) db =
    state_of (Rejections.reject_candidate env run e from reason patience key eligible counted db)
perform env (Call.count_failed run e reason patience) db =
    state_of (Rejections.count_failed_transaction env run e reason patience db)
perform env (Call.record_shadow run e family primary supported evidence eps patience seen minimum)
      db =
    state_of (
      Shadow.record_shadow_evaluation env run e family primary supported evidence eps patience seen
        minimum db)
perform env (Call.promote_search run e primary evidence eps patience key) db =
    state_of (Promotions.promote_search_candidate env run e primary evidence eps patience key db)
perform env (Call.promote_validated run e primary eps patience given key) db =
    state_of (Promotions.promote_validated env run e primary eps patience given key db)
perform env (Call.open_session host session run pid name after proven now) db =
    state_of (Sessions.open_process_session env host session run pid name after proven now db)
perform env (Call.heartbeat session seconds console now) db =
    state_of (Sessions.heartbeat_process_session env session seconds console now db)
perform env (Call.close_session session reason seconds console now) db =
    state_of (Sessions.close_process_session env session reason seconds console now db)
perform env (Call.llm_call id given) db = Journal.record_llm_call env id given db
perform env (Call.resource_usage key given) db =
    state_of (Journal.record_resource_usage key given db)
perform env (Call.lesson id run e scope learnt evidence) db =
    Journal.record_lesson env id run e scope learnt evidence db
perform env (Call.intervention id run actor action reason evidence) db =
    Journal.record_intervention env id run actor action reason evidence db

-- `Database.transaction`: COMMIT, or ROLLBACK when the block raises.
abbrev pub transact : Db → Result Db → Db
transact db (ok db') = db'
transact db (err e) = db

-- The calls in order, each at its own instant.
unfoldable pub history : Env → List (ℕ × Call) → Db → Db
history env [] db = db
history env ((instant, call) ∷ rest) db =
    history env rest (transact db (perform (record env { now = instant }) call db))

unfoldable pub empty : Db
empty = record {
  runs = [];
  process_sessions = [];
  baseline_gates = [];
  phase_transitions = [];
  shadow_evaluations = [];
  experiments = [];
  transitions = [];
  attempts = [];
  repairs = [];
  metrics = [];
  artifacts = [];
  artifact_links = [];
  promotions = [];
  search_promotions = [];
  convergence = [];
  llm_calls = [];
  resource_usage = [];
  lessons = [];
  interventions = [];
  event_outbox = [];
}

pub Ensures-state_of :
    {A : Type 0} {P : Db → Type 0} (m : Result (A × Db))
    → Ensures (λ r. P r.1) m
    → Ensures P (state_of m)
unfolding state_of
Ensures-state_of {P = P} (ok r) h = Ensures-ok r.1 (h.at r refl)
Ensures-state_of (err e) h = Ensures-err e

transact_keeps :
    (P : Db → Type 0) (result : Result Db) (db : Db)
    → P db
    → Ensures P result
    → P (transact db result)
transact_keeps P (ok db') db h e = e.at db' refl
transact_keeps P (err x) db h e = h

-- What every call keeps holds after every history.
pub history_induction :
    (env : Env) (P : Db → Type 0)
    → ((instant : ℕ) (call : Call) (db : Db)
        → P db
        → Ensures P (perform (record env { now = instant }) call db))
    → (calls : List (ℕ × Call)) (db : Db) → P db
    → P (history env calls db)
unfolding history
history_induction env P keeps [] db h = h
history_induction env P keeps ((instant, call) ∷ rest) db h =
    let result = perform (record env { now = instant }) call db in
    history_induction env P keeps rest (transact db result)
      (transact_keeps P result db h (keeps instant call db h))
