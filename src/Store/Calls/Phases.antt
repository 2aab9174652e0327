-- ===== src/Store/Calls/Phases.antt =====
-- The validation phase of a run over calls of src/rex/store/repository.py and histories of them.
use Prim.Native.String.{◌++◌ as join}
use tiktok_techjam_recsys_ag.Prelude.{
  ◌∷◌, [], ℕ, ◌≡◌, Option, none, some, List, String, string_eq, option_eq,
}
use tiktok_techjam_recsys_ag.Prelude.Table.{Table, get, Related-trans}
use tiktok_techjam_recsys_ag.Result.{ok}
use tiktok_techjam_recsys_ag.Result.Ensures.{
  Ensures, ensures_rules, Ensures-ok, Ensures-err, Ensures-require, Ensures-if, Ensures-on_row,
  Ensures-require_some, Ensures-bind,
}
use tiktok_techjam_recsys_ag.Contracts.{phase_eq}
use tiktok_techjam_recsys_ag.Control.Budget.{TrackerUpdate}
use tiktok_techjam_recsys_ag.Store.Documents.{Fields}
use tiktok_techjam_recsys_ag.Store.Schema.{Run, Db}
use tiktok_techjam_recsys_ag.Store.Events.{Env}
use tiktok_techjam_recsys_ag.Store.Runs.{create_run, transition_run, establish_baseline}
use tiktok_techjam_recsys_ag.Store.Experiments.{
  create_experiment, record_experiment_workspace, transition_experiment,
}
use tiktok_techjam_recsys_ag.Store.Finalist.{lock_validation_finalist, mark_official_evaluated}
use tiktok_techjam_recsys_ag.Store.Artifacts.{
  ArtifactRef, attempt_owner, owner_run, store_content, link_artifact, announce, register_artifact,
}
use tiktok_techjam_recsys_ag.Store.Attempts.{reserve_attempt, record_attempt}
use tiktok_techjam_recsys_ag.Store.Repairs.{
  reserve_experiment_repair, complete_experiment_repair, apply_experiment_repair_revision,
}
use tiktok_techjam_recsys_ag.Store.Measurements.{record_metrics}
use tiktok_techjam_recsys_ag.Store.Rejections.{
  reject_non_improving, reject_candidate, count_failed_transaction,
}
use tiktok_techjam_recsys_ag.Store.Shadow.{record_shadow_evaluation}
use tiktok_techjam_recsys_ag.Store.Promotions.{
  close_search_promotion, promote_search_candidate, promote_validated,
}
use tiktok_techjam_recsys_ag.Store.Sessions.{
  take_over, open_process_session, heartbeat_process_session, close_process_session,
}
use tiktok_techjam_recsys_ag.Store.Journal.{
  record_llm_call, record_resource_usage, record_lesson, record_intervention,
}
use tiktok_techjam_recsys_ag.Store.Calls.{
  Call, perform, history, Ensures-state_of, history_induction,
}
use tiktok_techjam_recsys_ag.Store.Calls.Advances.{
  Advanced, Advances, Advanced-trans, Advanced-refl, Advances-refl, Advances-new, Advances-keep,
  Advances-lock, Advances-if, Advances-consume, AdvancesFrom,
}

mark-Advances :
    (env : Env) (run e : String) (evidence : List String) (key : String) (db : Db)
    → Ensures (AdvancesFrom db) (mark_official_evaluated env run e evidence key db)
unfolding mark_official_evaluated
mark-Advances env run e evidence key db =
    search
      (
        Ensures-ok, Ensures-require, Ensures-if, Ensures-require_some, Advances-refl,
        Advances-consume,
      )
      depth 12

close-Advances :
    (t : Table String Run) (env : Env) (run e : String) (evidence : List String) (key : String)
    (update : TrackerUpdate) (payload : Fields) (db : Db)
    → Advances t db.runs
    → Ensures
        (λ r. Advances t r.1.runs)
        (close_search_promotion env run e evidence key update payload db)
unfolding close_search_promotion
close-Advances t env run e evidence key update payload db h =
    Ensures-bind (mark_official_evaluated env run e evidence (join key ":validation-phase") db) _
      (λ db' done. Ensures-ok _ (
        Related-trans Advanced t db.runs db'.runs Advanced-trans h
          ((mark-Advances env run e evidence (join key ":validation-phase") db).at db' done)))

content-Advances :
    (env : Env) (ref : ArtifactRef) (e attempt : Option String) (db db' : Db)
    → store_content env ref e attempt db ≡ ok db'
    → AdvancesFrom db db'
content-Advances env ref e attempt db db' done = kept.at db' done
  where
    kept : Ensures (AdvancesFrom db) (store_content env ref e attempt db)
    kept = unfold store_content in search (ensures_rules, Advances-refl) depth 12

link-Advances :
    (env : Env) (sep : String) (ref : ArtifactRef) (e attempt run : Option String)
    (t : Table String Run) (db : Db)
    → Advances t db.runs
    → Ensures (λ r. Advances t r.1.runs) (link_artifact env sep ref e attempt run db)
unfolding link_artifact announce
link-Advances env sep ref e attempt none t db h = search ensures_rules
link-Advances env sep ref e attempt (some run) t db h = search ensures_rules

register-Advances :
    (env : Env) (sep : String) (ref : ArtifactRef) (e attempt : Option String) (db : Db)
    → Ensures (λ r. AdvancesFrom db r.1) (register_artifact env sep ref e attempt db)
unfolding register_artifact
register-Advances env sep ref e attempt db = Ensures-bind (attempt_owner attempt e db) _ (λ owner _.
    Ensures-bind (owner_run owner db) _ (λ run _.
      Ensures-bind (store_content env ref owner attempt db) _ (λ db' stored.
        link-Advances env sep ref owner attempt run db.runs db'
          (content-Advances env ref owner attempt db db' stored))))

take_over-Advances :
    (env : Env) (run session : String) (instant : ℕ) (stale : List (String × String)) (db : Db)
    → Advances db.runs (take_over env run session instant stale db).runs
unfolding take_over
take_over-Advances env run session instant [] db = Advances-refl db.runs
take_over-Advances env run session instant ((id, reason) ∷ rest) db =
    take_over-Advances env run session instant rest _

ruleset quiet_rules = (ensures_rules, Ensures-state_of, Advances-refl)

ruleset run_rules = (
  Ensures-ok, Ensures-err, Ensures-require, Ensures-if, Ensures-on_row, Ensures-require_some,
  Ensures-state_of, Advances-refl, Advances-new, Advances-keep, Advances-lock, Advances-if,
)

perform-Advances :
    (env : Env) (call : Call) (db : Db)
    → Ensures (λ db'. Advances db.runs db'.runs) (perform env call db)
unfolding perform create_run transition_run establish_baseline create_experiment
    record_experiment_workspace transition_experiment lock_validation_finalist reserve_attempt
    record_attempt reserve_experiment_repair complete_experiment_repair
    apply_experiment_repair_revision record_metrics reject_non_improving reject_candidate
    count_failed_transaction record_shadow_evaluation promote_search_candidate promote_validated
    open_process_session heartbeat_process_session close_process_session record_llm_call
    record_resource_usage record_lesson record_intervention
perform-Advances env (Call.create_run spec) db = search run_rules depth 22
perform-Advances env (Call.transition_run run from to reason) db = search run_rules depth 22
perform-Advances env (Call.establish_baseline run m evidence) db = search run_rules depth 22
perform-Advances env (Call.create_experiment run proposal commit limit given) db =
    search run_rules depth 22
perform-Advances env (Call.record_workspace e path branch commit config) db =
    search quiet_rules depth 22
perform-Advances env (Call.transition_experiment e from to payload key) db =
    search quiet_rules depth 22
perform-Advances env (Call.lock_finalist run e evidence key) db = search run_rules depth 22
perform-Advances env (Call.register_artifact separator ref e attempt) db =
    search (Ensures-state_of, register-Advances)
perform-Advances env (Call.reserve_attempt attempt e rung number command commit) db =
    search quiet_rules depth 22
perform-Advances env (Call.record_attempt result rung number) db = search quiet_rules depth 22
perform-Advances env (Call.reserve_repair e phase failure plan maximum) db =
    search quiet_rules depth 22
perform-Advances env (Call.complete_repair id evidence) db = search quiet_rules depth 22
perform-Advances env (Call.apply_revision id commit artifact) db = search quiet_rules depth 22
perform-Advances env (Call.record_metrics e m attempt limit) db = search run_rules depth 22
perform-Advances env (Call.reject_non_improving run e from reason patience key) db =
    search run_rules depth 22
perform-Advances env (Call.reject_candidate run e from reason patience key eligible counted) db =
    search run_rules depth 22
perform-Advances env (Call.count_failed run e reason patience) db = search run_rules depth 22
perform-Advances env
      (Call.record_shadow run e family primary supported evidence eps patience seen minimum) db =
    search run_rules depth 22
perform-Advances env (Call.promote_search run e primary evidence eps patience key) db =
    search (run_rules, close-Advances db.runs) depth 22
perform-Advances env (Call.promote_validated run e primary eps patience given key) db =
    search run_rules depth 22
perform-Advances env (Call.open_session host session run pid name after proven now) db =
    search (quiet_rules, take_over-Advances) depth 22
perform-Advances env (Call.heartbeat session seconds console now) db = search quiet_rules depth 22
perform-Advances env (Call.close_session session reason seconds console now) db =
    search quiet_rules depth 22
perform-Advances env (Call.llm_call id given) db = search quiet_rules depth 22
perform-Advances env (Call.resource_usage key given) db = search quiet_rules depth 22
perform-Advances env (Call.lesson id run e scope learnt evidence) db = search quiet_rules depth 22
perform-Advances env (Call.intervention id run actor action reason evidence) db =
    search quiet_rules depth 22

-- Over any history of calls a run that is stored stays stored, its validation phase never goes back
-- (DISCOVERY, FINALIST_LOCKED, OFFICIAL_EVALUATED), and once it has left DISCOVERY its finalist is
-- never replaced.
pub history-Advanced :
    (env : Env) (calls : List (ℕ × Call)) (run : String) (db : Db)
    → Advanced (get run db.runs) (get run (history env calls db).runs)
history-Advanced env calls run db =
    history_induction env (λ x. Advanced (get run db.runs) (get run x.runs))
      (λ instant call x h. record {
        at = λ x' done.
            Advanced-trans (get run db.runs) (get run x.runs) (get run x'.runs) h
              (((perform-Advances (record env { now = instant }) call x).at x' done).at run);
      })
      calls db (Advanced-refl (get run db.runs))
