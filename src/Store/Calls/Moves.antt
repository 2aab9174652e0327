-- ===== src/Store/Calls/Moves.antt =====
-- What a call of src/rex/store/repository.py does to the state of an experiment.
use Prim.Native.String.{◌++◌ as join}
use tiktok_techjam_recsys_ag.Prelude.{◌∷◌, [], ◌≡◌, Option, none, some, List, String, string_eq, ℕ}
use tiktok_techjam_recsys_ag.Prelude.Table.{Table}
use tiktok_techjam_recsys_ag.Prelude.Decimal.{Float}
use tiktok_techjam_recsys_ag.Result.{ok}
use tiktok_techjam_recsys_ag.Result.Ensures.{
  Ensures, ensures_rules, Ensures-ok, Ensures-err, Ensures-require, Ensures-if, Ensures-on_row,
  Ensures-require_some, Ensures-bind,
}
use tiktok_techjam_recsys_ag.Contracts.{experiment_state_eq}
use tiktok_techjam_recsys_ag.Control.Budget.{TrackerUpdate}
use tiktok_techjam_recsys_ag.Store.Documents.{Fields}
use tiktok_techjam_recsys_ag.Store.Schema.{Experiment, Db}
use tiktok_techjam_recsys_ag.Store.Events.{Env}
use tiktok_techjam_recsys_ag.Store.Runs.{create_run, transition_run, establish_baseline}
use tiktok_techjam_recsys_ag.Store.Experiments.{
  create_experiment, record_experiment_workspace, transition_experiment,
}
use tiktok_techjam_recsys_ag.Store.Finalist.{lock_validation_finalist, mark_official_evaluated}
use tiktok_techjam_recsys_ag.Store.Artifacts.{
  ArtifactRef, attempt_owner, owner_run, store_content, link_artifact, register_artifact,
}
use tiktok_techjam_recsys_ag.Store.Attempts.{reserve_attempt, record_attempt}
use tiktok_techjam_recsys_ag.Store.Repairs.{
  reserve_experiment_repair, complete_experiment_repair, apply_experiment_repair_revision,
}
use tiktok_techjam_recsys_ag.Store.Measurements.{record_metrics}
use tiktok_techjam_recsys_ag.Store.Rejections.{
  reject_non_improving, reject_candidate, count_failed_transaction,
}
use tiktok_techjam_recsys_ag.Store.Shadow.{record_shadow_evaluation}
use tiktok_techjam_recsys_ag.Store.Promotions.{
  close_search_promotion, promote_search_candidate, promote_validated,
}
use tiktok_techjam_recsys_ag.Store.Sessions.{
  take_over, open_process_session, heartbeat_process_session, close_process_session,
}
use tiktok_techjam_recsys_ag.Store.Journal.{
  record_llm_call, record_resource_usage, record_lesson, record_intervention,
}
use tiktok_techjam_recsys_ag.Store.Calls.{Call, perform, Ensures-state_of}
use tiktok_techjam_recsys_ag.Store.Calls.Moved.{
  Moves, Moves-refl, Moves-new, Moves-keep, Moves-step, MovesFrom, Ensures-of_run,
}

mark_keeps :
    (env : Env) (run e : String) (evidence : List String) (key : String)
    (t : Table String Experiment) (db db' : Db)
    → Moves t db.experiments
    → mark_official_evaluated env run e evidence key db ≡ ok db'
    → Moves t db'.experiments
mark_keeps env run e evidence key t db db' h done = kept.at db' done
  where
    kept : Ensures (λ d. Moves t d.experiments) (mark_official_evaluated env run e evidence key db)
    kept = unfold mark_official_evaluated in search ensures_rules depth 12

close_keeps :
    (t : Table String Experiment) (env : Env) (run e : String) (evidence : List String)
    (key : String) (update : TrackerUpdate) (payload : Fields) (db : Db)
    → Moves t db.experiments
    → Ensures
        (λ r. Moves t r.1.experiments)
        (close_search_promotion env run e evidence key update payload db)
unfolding close_search_promotion
close_keeps t env run e evidence key update payload db h =
    Ensures-bind (mark_official_evaluated env run e evidence (join key ":validation-phase") db) _
      (λ db' done.
        Ensures-ok _ (mark_keeps env run e evidence (join key ":validation-phase") t db db' h done))

content_keeps :
    (env : Env) (ref : ArtifactRef) (e attempt : Option String) (db db' : Db)
    → store_content env ref e attempt db ≡ ok db'
    → MovesFrom db db'
content_keeps env ref e attempt db db' done = kept.at db' done
  where
    kept : Ensures (MovesFrom db) (store_content env ref e attempt db)
    kept = unfold store_content in search (ensures_rules, Moves-refl) depth 12

link_keeps :
    (env : Env) (sep : String) (ref : ArtifactRef) (e attempt run : Option String)
    (t : Table String Experiment) (db : Db)
    → Moves t db.experiments
    → Ensures (λ r. Moves t r.1.experiments) (link_artifact env sep ref e attempt run db)
unfolding link_artifact
link_keeps env sep ref e attempt none t db h = search ensures_rules
link_keeps env sep ref e attempt (some run) t db h = search ensures_rules

take_over-Moves :
    (env : Env) (run session : String) (instant : ℕ) (stale : List (String × String)) (db : Db)
    → Moves db.experiments (take_over env run session instant stale db).experiments
unfolding take_over
take_over-Moves env run session instant [] db = Moves-refl db.experiments
take_over-Moves env run session instant ((id, reason) ∷ rest) db =
    take_over-Moves env run session instant rest _

-- Calls that leave the experiments alone, and those that write one.
ruleset quiet_rules = (ensures_rules, Ensures-state_of, Moves-refl)

ruleset moves_rules = (
  Ensures-ok, Ensures-err, Ensures-require, Ensures-if, Ensures-on_row, Ensures-of_run,
  Ensures-require_some, Ensures-state_of, Moves-refl, Moves-new, Moves-keep, Moves-step,
)

register_keeps :
    (env : Env) (sep : String) (ref : ArtifactRef) (e attempt : Option String) (db : Db)
    → Ensures (λ r. MovesFrom db r.1) (register_artifact env sep ref e attempt db)
unfolding register_artifact
register_keeps env sep ref e attempt db = Ensures-bind (attempt_owner attempt e db) _ (λ owner _.
    Ensures-bind (owner_run owner db) _ (λ run _.
      Ensures-bind (store_content env ref owner attempt db) _ (λ db' stored.
        link_keeps env sep ref owner attempt run db.experiments db'
          (content_keeps env ref owner attempt db db' stored))))

search_promotion_keeps :
    (env : Env) (run e : String) (primary : Float) (evidence : List String) (eps : Float)
    (patience : ℕ) (key : String) (db : Db)
    → Ensures
        (λ r. Moves db.experiments r.1.experiments)
        (promote_search_candidate env run e primary evidence eps patience key db)
unfolding promote_search_candidate
search_promotion_keeps env run e primary evidence eps patience key db =
    search
      (
        Ensures-ok,
        Ensures-require,
        Ensures-on_row,
        Ensures-of_run,
        Ensures-require_some,
        Moves-refl,
        Moves-step,
        close_keeps db.experiments,
      )
      depth 16

-- Every call that does not raise creates experiments in PROPOSED alone, removes none, and moves each
-- experiment of its run along one legal transition or not at all.
pub perform-Moves :
    (env : Env) (call : Call) (db : Db)
    → Ensures (λ db'. Moves db.experiments db'.experiments) (perform env call db)
unfolding perform create_run transition_run establish_baseline create_experiment
    record_experiment_workspace transition_experiment lock_validation_finalist reserve_attempt
    record_attempt reserve_experiment_repair complete_experiment_repair
    apply_experiment_repair_revision record_metrics reject_non_improving reject_candidate
    count_failed_transaction record_shadow_evaluation promote_search_candidate promote_validated
    open_process_session heartbeat_process_session close_process_session record_llm_call
    record_resource_usage record_lesson record_intervention
perform-Moves env (Call.create_run spec) db = search quiet_rules depth 22
perform-Moves env (Call.transition_run run from to reason) db = search quiet_rules depth 22
perform-Moves env (Call.establish_baseline run m evidence) db = search quiet_rules depth 22
perform-Moves env (Call.create_experiment run proposal commit limit given) db =
    search moves_rules depth 22
perform-Moves env (Call.record_workspace e path branch commit config) db =
    search moves_rules depth 22
perform-Moves env (Call.transition_experiment e from to payload key) db =
    search moves_rules depth 22
perform-Moves env (Call.lock_finalist run e evidence key) db = search quiet_rules depth 22
perform-Moves env (Call.register_artifact separator ref e attempt) db =
    search (Ensures-state_of, register_keeps)
perform-Moves env (Call.reserve_attempt attempt e rung number command commit) db =
    search quiet_rules depth 22
perform-Moves env (Call.record_attempt result rung number) db = search quiet_rules depth 22
perform-Moves env (Call.reserve_repair e phase failure plan maximum) db =
    search quiet_rules depth 22
perform-Moves env (Call.complete_repair id evidence) db = search quiet_rules depth 22
perform-Moves env (Call.apply_revision id commit artifact) db = search moves_rules depth 22
perform-Moves env (Call.record_metrics e m attempt limit) db = search quiet_rules depth 22
perform-Moves env (Call.reject_non_improving run e from reason patience key) db =
    search moves_rules depth 22
perform-Moves env (Call.reject_candidate run e from reason patience key eligible counted) db =
    search moves_rules depth 22
perform-Moves env (Call.count_failed run e reason patience) db = search quiet_rules depth 22
perform-Moves env
      (Call.record_shadow run e family primary supported evidence eps patience seen minimum) db =
    search quiet_rules depth 22
perform-Moves env (Call.promote_search run e primary evidence eps patience key) db =
    search (Ensures-state_of, search_promotion_keeps)
perform-Moves env (Call.promote_validated run e primary eps patience given key) db =
    search moves_rules depth 22
perform-Moves env (Call.open_session host session run pid name after proven now) db =
    search (quiet_rules, take_over-Moves) depth 22
perform-Moves env (Call.heartbeat session seconds console now) db = search quiet_rules depth 22
perform-Moves env (Call.close_session session reason seconds console now) db =
    search quiet_rules depth 22
perform-Moves env (Call.llm_call id given) db = search quiet_rules depth 22
perform-Moves env (Call.resource_usage key given) db = search quiet_rules depth 22
perform-Moves env (Call.lesson id run e scope learnt evidence) db = search quiet_rules depth 22
perform-Moves env (Call.intervention id run actor action reason evidence) db =
    search quiet_rules depth 22
