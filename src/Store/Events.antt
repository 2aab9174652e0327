-- ===== src/Store/Events.antt =====
-- The hash-chained outbox: `_event` of src/rex/store/repository.py, `export_events` and
-- `verify_event_chain` of src/rex/store/event_log.py.
pub mod Chain
use tiktok_techjam_recsys_ag.Prelude.{
  ℕ, ◌≡◌, Bool, true, false, ◌&&◌, not, Option, none, some, List, [], ◌∷◌, ◌++◌, String, ◌==◌,
  string_eq, option_eq, reverse, filter_by, if◌then◌else◌, String-discrete, Option-discrete,
}
use tiktok_techjam_recsys_ag.Store.Documents.{Json, Fields, Fields-discrete}
use tiktok_techjam_recsys_ag.Store.Schema.{Event, Db}

-- The document that is hashed.
pub record EventBody : Type 0 where
  pub run_id : String
  pub event_type : String
  pub aggregate_id : String
  pub payload : Fields
  pub previous_hash : Option String

-- What a call takes from outside: `hashlib.sha256(canonical_json_bytes(body)).hexdigest()`, the same
-- digest of a text, how Python prints an integer, and the reading of the clock. One call reads the clock
-- once here: the instants that it stores are never compared with one another.
pub record Env : Type 0 where
  pub event_digest : EventBody → String
  pub text_digest : String → String
  pub int_text : ℕ → String
  pub now : ℕ

abbrev pub body_of : Event → EventBody
body_of e = record {
  run_id = e.run_id;
  event_type = e.event_type;
  aggregate_id = e.aggregate_id;
  payload = e.payload_json;
  previous_hash = e.previous_hash;
}

-- SELECT event_hash … WHERE run_id=? ORDER BY sequence DESC LIMIT 1
unfoldable pub last_hash : String → List Event → Option String
last_hash run_id [] = none
last_hash run_id (e ∷ rest) =
    if e.run_id == run_id then some e.event_hash else last_hash run_id rest

-- `_event`, on the outbox.
unfoldable pub append_event : Env → String → String → String → Fields → List Event → List Event
append_event env run event kind_id payload outbox =
    let previous = last_hash run outbox in
    record {
      run_id = run;
      event_type = event;
      aggregate_id = kind_id;
      payload_json = payload;
      previous_hash = previous;
      event_hash = env.event_digest (record {
        run_id = run;
        event_type = event;
        aggregate_id = kind_id;
        payload = payload;
        previous_hash = previous;
      });
      created_at = env.now;
    }
    ∷ outbox

abbrev pub emit : Env → String → String → String → Fields → Db → Db
emit env run event kind_id payload db = record db {
  event_outbox = append_event env run event kind_id payload db.event_outbox;
}

-- The lines of `export_events`, oldest first.
unfoldable pub export_events : String → List Event → List Event
unfolding filter_by
export_events run_id outbox = reverse (filter_by (λ e. e.run_id == run_id) outbox)

-- The loop of `verify_event_chain`, on the lines that are left, with its variables `previous` and
-- `seen`.
unfoldable pub verify_from : (EventBody → String) → Option String → Bool → List Event → Bool
verify_from digest previous seen [] = seen
verify_from digest previous seen (e ∷ rest) =
    let onward = verify_from digest (some e.event_hash) true rest in
    if not (e.previous_hash == previous)
    then false
    else if not (digest (body_of e) == e.event_hash)
    then false
    else onward

unfoldable pub verify_event_chain : (EventBody → String) → List Event → Bool
unfolding verify_from
verify_event_chain digest lines = verify_from digest none false lines
