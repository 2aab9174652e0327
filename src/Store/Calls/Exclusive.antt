-- ===== src/Store/Calls/Exclusive.antt =====
-- The leases of src/rex/store/repository.py over a history of calls.
use Prim.Native.String.{◌++◌ as join}
use tiktok_techjam_recsys_ag.Control.Budget.{TrackerUpdate}
use tiktok_techjam_recsys_ag.Store.Documents.{Fields}
use tiktok_techjam_recsys_ag.Prelude.Decimal.{Float}
use tiktok_techjam_recsys_ag.Prelude.{ℕ, ◌≡◌, List, String, Option, some, none}
use tiktok_techjam_recsys_ag.Prelude.Table.{get}
use tiktok_techjam_recsys_ag.Result.{ok}
use tiktok_techjam_recsys_ag.Result.Ensures.{
  Ensures, ensures_rules, Ensures-ok, Ensures-require, Ensures-if, Ensures-require_some,
  Ensures-bind, Ensures-on_row,
}
use tiktok_techjam_recsys_ag.Store.Schema.{Db}
use tiktok_techjam_recsys_ag.Store.Events.{Env}
use tiktok_techjam_recsys_ag.Store.Runs.{create_run, transition_run, establish_baseline}
use tiktok_techjam_recsys_ag.Store.Experiments.{
  create_experiment, record_experiment_workspace, transition_experiment,
}
use tiktok_techjam_recsys_ag.Store.Finalist.{lock_validation_finalist, mark_official_evaluated}
use tiktok_techjam_recsys_ag.Store.Artifacts.{
  ArtifactRef, store_content, link_artifact, announce, register_artifact,
}
use tiktok_techjam_recsys_ag.Store.Attempts.{reserve_attempt, record_attempt}
use tiktok_techjam_recsys_ag.Store.Repairs.{
  reserve_experiment_repair, complete_experiment_repair, apply_experiment_repair_revision,
}
use tiktok_techjam_recsys_ag.Store.Measurements.{record_metrics}
use tiktok_techjam_recsys_ag.Store.Rejections.{
  reject_non_improving, reject_candidate, count_failed_transaction,
}
use tiktok_techjam_recsys_ag.Store.Shadow.{record_shadow_evaluation}
use tiktok_techjam_recsys_ag.Store.Promotions.{
  close_search_promotion, promote_search_candidate, promote_validated,
}
use tiktok_techjam_recsys_ag.Store.Sessions.{
  open_process_session, heartbeat_process_session, close_process_session,
}
use tiktok_techjam_recsys_ag.Store.Sessions.Leases.{SingleActive-opened}
use tiktok_techjam_recsys_ag.Store.Sessions.Fades.{
  SingleActive, SingleActive-same, SingleActive-ended,
}
use tiktok_techjam_recsys_ag.Store.Journal.{
  record_llm_call, record_resource_usage, record_lesson, record_intervention,
}
use tiktok_techjam_recsys_ag.Store.Calls.{
  Call, perform, history, empty, Ensures-state_of, history_induction,
}

abbrev IsExclusive : Db → Type 0
IsExclusive db = SingleActive db.process_sessions

link_keeps :
    (env : Env) (sep : String) (ref : ArtifactRef) (e attempt run : Option String) (db : Db)
    → IsExclusive db
    → Ensures (λ r. IsExclusive r.1) (link_artifact env sep ref e attempt run db)
unfolding link_artifact announce
link_keeps env sep ref e attempt none db h = search ensures_rules
link_keeps env sep ref e attempt (some run) db h = search ensures_rules

mark_keeps :
    (env : Env) (run e : String) (evidence : List String) (key : String) (db db' : Db)
    → IsExclusive db
    → mark_official_evaluated env run e evidence key db ≡ ok db'
    → IsExclusive db'
mark_keeps env run e evidence key db db' h done = kept.at db' done
  where
    kept : Ensures IsExclusive (mark_official_evaluated env run e evidence key db)
    kept = unfold mark_official_evaluated in search ensures_rules depth 12

content_keeps :
    (env : Env) (ref : ArtifactRef) (e attempt : Option String) (db db' : Db)
    → IsExclusive db
    → store_content env ref e attempt db ≡ ok db'
    → IsExclusive db'
content_keeps env ref e attempt db db' h done = kept.at db' done
  where
    kept : Ensures IsExclusive (store_content env ref e attempt db)
    kept = unfold store_content in search ensures_rules depth 12

close_keeps :
    (env : Env) (run e : String) (evidence : List String) (key : String) (update : TrackerUpdate)
    (payload : Fields) (db : Db)
    → IsExclusive db
    → Ensures
        (λ r. IsExclusive r.1)
        (close_search_promotion env run e evidence key update payload db)
unfolding close_search_promotion
close_keeps env run e evidence key update payload db h =
    Ensures-bind (mark_official_evaluated env run e evidence (join key ":validation-phase") db) _
      (λ db' done.
        Ensures-ok _ (mark_keeps env run e evidence (join key ":validation-phase") db db' h done))

search_promotion_keeps :
    (env : Env) (run e : String) (primary : Float) (evidence : List String) (eps : Float)
    (patience : ℕ) (key : String) (db : Db)
    → IsExclusive db
    → Ensures
        (λ r. IsExclusive r.1)
        (promote_search_candidate env run e primary evidence eps patience key db)
unfolding promote_search_candidate
search_promotion_keeps env run e primary evidence eps patience key db h =
    search (Ensures-ok, Ensures-require, Ensures-on_row, Ensures-require_some, close_keeps) depth 22

-- Calls that leave the sessions alone, and those that write them.
ruleset other_rules =
    (ensures_rules, Ensures-state_of, mark_keeps, content_keeps, link_keeps, search_promotion_keeps)

ruleset session_rules = (
  Ensures-ok, Ensures-require, Ensures-if, Ensures-on_row, Ensures-require_some, Ensures-state_of,
  SingleActive-same, SingleActive-ended,
)

perform-IsExclusive :
    (env : Env) (call : Call) (db : Db) → IsExclusive db → Ensures IsExclusive (perform env call db)
unfolding perform create_run transition_run establish_baseline create_experiment
    record_experiment_workspace transition_experiment lock_validation_finalist register_artifact
    reserve_attempt record_attempt reserve_experiment_repair complete_experiment_repair
    apply_experiment_repair_revision record_metrics reject_non_improving reject_candidate
    count_failed_transaction record_shadow_evaluation promote_validated open_process_session
    heartbeat_process_session close_process_session record_llm_call record_resource_usage
    record_lesson record_intervention
perform-IsExclusive env (Call.open_session host session run pid name after proven now) db h =
    search (ensures_rules, Ensures-state_of, SingleActive-opened) depth 22
perform-IsExclusive env (Call.heartbeat session seconds console now) db h =
    search session_rules depth 22
perform-IsExclusive env (Call.close_session session reason seconds console now) db h =
    search session_rules depth 22
perform-IsExclusive env _ db h = search other_rules depth 22

-- After any history of calls on the empty database, no two sessions hold the lease of the same run:
-- of the sessions of a run, at most one is not ended.
pub history-SingleActive :
    (env : Env) (calls : List (ℕ × Call)) → SingleActive (history env calls empty).process_sessions
history-SingleActive env calls =
    history_induction env IsExclusive
      (λ instant call db h. perform-IsExclusive (record env { now = instant }) call db h) calls
      empty (unfold empty get in record { at = λ run i j hi hj. cc })
