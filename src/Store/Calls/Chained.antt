-- ===== src/Store/Calls/Chained.antt =====
-- The event log of src/rex/store/event_log.py over a history of calls.
use tiktok_techjam_recsys_ag.Prelude.{◌∷◌, [], ℕ, ◌≡◌, Option, none, some, List, String, is_some}
use tiktok_techjam_recsys_ag.Result.{ok}
use tiktok_techjam_recsys_ag.Result.Ensures.{Ensures, ensures_rules}
use tiktok_techjam_recsys_ag.Store.Schema.{Db}
use tiktok_techjam_recsys_ag.Store.Events.{
  EventBody, Env, last_hash, export_events, verify_event_chain,
}
use tiktok_techjam_recsys_ag.Store.Events.Chain.{
  IsChained, append_event-IsChained, verify-IsChained,
}
use tiktok_techjam_recsys_ag.Store.Runs.{create_run, transition_run, establish_baseline}
use tiktok_techjam_recsys_ag.Store.Experiments.{
  create_experiment, record_experiment_workspace, transition_experiment,
}
use tiktok_techjam_recsys_ag.Store.Finalist.{lock_validation_finalist, mark_official_evaluated}
use tiktok_techjam_recsys_ag.Store.Artifacts.{
  ArtifactRef, store_content, link_artifact, register_artifact,
}
use tiktok_techjam_recsys_ag.Store.Attempts.{reserve_attempt, record_attempt}
use tiktok_techjam_recsys_ag.Store.Repairs.{
  reserve_experiment_repair, complete_experiment_repair, apply_experiment_repair_revision,
}
use tiktok_techjam_recsys_ag.Store.Measurements.{record_metrics}
use tiktok_techjam_recsys_ag.Store.Rejections.{
  reject_non_improving, reject_candidate, count_failed_transaction,
}
use tiktok_techjam_recsys_ag.Store.Shadow.{record_shadow_evaluation}
use tiktok_techjam_recsys_ag.Store.Promotions.{
  close_search_promotion, promote_search_candidate, promote_validated,
}
use tiktok_techjam_recsys_ag.Store.Sessions.{
  take_over, open_process_session, heartbeat_process_session, close_process_session,
}
use tiktok_techjam_recsys_ag.Store.Journal.{
  record_llm_call, record_resource_usage, record_lesson, record_intervention,
}
use tiktok_techjam_recsys_ag.Store.Calls.{
  Call, perform, history, empty, Ensures-state_of, history_induction,
}

abbrev HasChain : (EventBody → String) → Db → Type 0
HasChain digest db = IsChained digest db.event_outbox

mark_keeps :
    (env : Env) (run e : String) (evidence : List String) (key : String) (db db' : Db)
    → HasChain env.event_digest db
    → mark_official_evaluated env run e evidence key db ≡ ok db'
    → HasChain env.event_digest db'
mark_keeps env run e evidence key db db' h done = kept.at db' done
  where
    kept : Ensures (HasChain env.event_digest) (mark_official_evaluated env run e evidence key db)
    kept = unfold mark_official_evaluated in search ensures_rules depth 12

content_keeps :
    (env : Env) (ref : ArtifactRef) (e attempt : Option String) (db db' : Db)
    → HasChain env.event_digest db
    → store_content env ref e attempt db ≡ ok db'
    → HasChain env.event_digest db'
content_keeps env ref e attempt db db' h done = kept.at db' done
  where
    kept : Ensures (HasChain env.event_digest) (store_content env ref e attempt db)
    kept = unfold store_content in search ensures_rules depth 12

link_keeps :
    (env : Env) (sep : String) (ref : ArtifactRef) (e attempt run : Option String) (db : Db)
    → HasChain env.event_digest db
    → Ensures (λ r. HasChain env.event_digest r.1) (link_artifact env sep ref e attempt run db)
unfolding link_artifact
link_keeps env sep ref e attempt none db h = search ensures_rules
link_keeps env sep ref e attempt (some run) db h = search (ensures_rules, append_event-IsChained)

take_over_keeps :
    (env : Env) (run session : String) (instant : ℕ) (stale : List (String × String)) (db : Db)
    → HasChain env.event_digest db
    → HasChain env.event_digest (take_over env run session instant stale db)
unfolding take_over
take_over_keeps env run session instant [] db h = h
take_over_keeps env run session instant ((id, reason) ∷ rest) db h =
    take_over_keeps env run session instant rest _
      (append_event-IsChained env run "session.stale" id _ db.event_outbox h)

ruleset chain_rules = (
  ensures_rules, Ensures-state_of, append_event-IsChained, mark_keeps, content_keeps, link_keeps,
  take_over_keeps,
)

perform-HasChain :
    (env : Env) (call : Call) (db : Db)
    → HasChain env.event_digest db
    → Ensures (HasChain env.event_digest) (perform env call db)
unfolding perform create_run transition_run establish_baseline create_experiment
    record_experiment_workspace transition_experiment lock_validation_finalist register_artifact
    reserve_attempt record_attempt reserve_experiment_repair complete_experiment_repair
    apply_experiment_repair_revision record_metrics reject_non_improving reject_candidate
    count_failed_transaction record_shadow_evaluation close_search_promotion
    promote_search_candidate promote_validated open_process_session heartbeat_process_session
    close_process_session record_llm_call record_resource_usage record_lesson record_intervention
perform-HasChain env (Call.create_run spec) db h = search chain_rules depth 22
perform-HasChain env _ db h = search chain_rules depth 22

-- After any history of calls on the empty database, failed and repeated ones included, the exported
-- log of every run that has an event is accepted by `verify_event_chain`.
pub history-verifies :
    (env : Env) (calls : List (ℕ × Call)) (run : String)
    → let outbox = (history env calls empty).event_outbox in
      verify_event_chain env.event_digest (export_events run outbox)
      ≡ is_some (last_hash run outbox)
history-verifies env calls run =
    verify-IsChained env.event_digest run (history env calls empty).event_outbox (
      history_induction env (HasChain env.event_digest)
        (λ instant call db h. perform-HasChain (record env { now = instant }) call db h) calls empty
        (unfold empty in tt))
