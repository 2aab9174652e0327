-- ===== src/Store/Sessions.antt =====
-- src/rex/store/repository.py: `open_process_session`, `heartbeat_process_session` and
-- `close_process_session`, the lease of a run by one process at a time. Instants are microseconds.
pub mod Fades
pub mod Leases
use tiktok_techjam_recsys_ag.Prelude.{
  ℕ, Bool, true, false, not, ◌&&◌, ◌||◌, Option, none, some, List, [], ◌∷◌, String, ◌==◌, map,
  string_eq, option_eq, is_some, contains, filter_by, leb, if◌then◌else◌,
}
use tiktok_techjam_recsys_ag.Prelude.Int.{ℤ, pos, ◌-ℤ◌, leb_ℤ, ltb_ℤ, int_eq}
use tiktok_techjam_recsys_ag.Prelude.Decimal.{Float, float_eq, zero_float, ltb_float}
use tiktok_techjam_recsys_ag.Prelude.Table.{Table, get, put}
use tiktok_techjam_recsys_ag.Result.{
  Result, ok, repository_error, ◌>>=◌, ◌>>◌, require, require_some, on_row,
}
use tiktok_techjam_recsys_ag.Store.Documents.{
  end, field, text, texts, real, int_or_null, text_or_null,
}
use tiktok_techjam_recsys_ag.Store.Schema.{ProcessSession, Db}
use tiktok_techjam_recsys_ag.Store.Events.{Env, emit}
use tiktok_techjam_recsys_ag.Store.Runs.{coalesce}

-- How `os.kill(pid, 0)` ends: ProcessLookupError, another OSError, or no exception.
pub data Probe : Type 0 where
  no_process denied delivered : Probe

-- What the calls take from the host: `socket.gethostname()`, `os.getpid()`, `os.kill(pid, 0)`, and
-- `timedelta(seconds=…)` in microseconds.
pub record Host : Type 0 where
  pub hostname : String
  pub process_id : ℤ
  pub kill : ℤ → Probe
  pub seconds : Float → ℤ

-- `now or datetime.now(timezone.utc)`
abbrev pub observed : Option ℕ → Env → ℕ
observed none env = env.now
observed (some instant) env = instant

abbrev or_default : {A : Type 0} → Option A → A → A
or_default none a = a
or_default (some a) _ = a

-- `given or stored` on texts: the empty text is false.
abbrev or_text : Option String → Option String → Option String
or_text none stored = stored
or_text (some s) stored = if s == "" then stored else some s

unfoldable pub same_host_pid_is_missing : Host → Option String → Option ℤ → Bool
same_host_pid_is_missing host name none = false
same_host_pid_is_missing host name (some pid) =
    if not (name == some host.hostname) || leb_ℤ pid (pos 0)
    then false
    else elim (host.kill pid) [ no_process ↦ true | denied ↦ false | delivered ↦ false ]

abbrev pub is_active : String → ProcessSession → Bool
is_active run_id s = s.run_id == run_id && not (is_some s.ended_at)

-- ORDER BY started_at: a new row goes before the first that started later.
unfoldable pub insert_by_start :
    String × ProcessSession → List (String × ProcessSession) → List (String × ProcessSession)
insert_by_start row [] = row ∷ []
insert_by_start row (other ∷ rest) =
    if leb row.1.started_at other.1.started_at
    then row ∷ other ∷ rest
    else other ∷ insert_by_start row rest

unfoldable pub by_start : List (String × ProcessSession) → List (String × ProcessSession)
by_start [] = []
by_start (row ∷ rest) = insert_by_start row (by_start rest)

-- SELECT * FROM process_sessions WHERE run_id=? AND ended_at IS NULL ORDER BY started_at
unfoldable pub active_sessions :
    String → Table String ProcessSession → List (String × ProcessSession)
unfolding by_start filter_by
active_sessions run_id t = by_start (filter_by (λ row. is_active run_id row.1) t)

abbrev pub latest_sign : ProcessSession → ℕ
latest_sign s = or_default s.last_heartbeat s.started_at

-- `observed_at - latest >= timedelta(seconds=…)`
unfoldable pub timed_out : Host → ℕ → Option Float → ProcessSession → Bool
timed_out host observed_at none s = false
timed_out host observed_at (some after) s =
    leb_ℤ (host.seconds after) (pos observed_at -ℤ pos (latest_sign s))

unfoldable pub is_stale : Host → ℕ → Option Float → List String → String → ProcessSession → Bool
is_stale host observed_at after proven id s =
    timed_out host observed_at after s
    || same_host_pid_is_missing host s.host s.pid
    || contains id proven

abbrev stale_reason : Host → List String → String → ProcessSession → String
stale_reason host proven id s =
    if same_host_pid_is_missing host s.host s.pid
    then "dead_process_takeover"
    else if contains id proven
    then "dead_docker_controller_takeover"
    else "stale_takeover"

-- The first loop: every active session is stale, or the call is refused.
unfoldable pub judge :
    Host
    → ℕ
    → Option Float
    → List String
    → List (String × ProcessSession)
    → Result (List (String × String))
judge host observed_at after proven [] = ok []
judge host observed_at after proven ((id, s) ∷ rest) = do
  require (is_stale host observed_at after proven id s)
      (repository_error "run already has an active process session")
  stale ← judge host observed_at after proven rest
  ok ((id, stale_reason host proven id s) ∷ stale)

-- UPDATE process_sessions SET ended_at=?,exit_reason=? WHERE session_id=?
unfoldable pub end_session :
    ℕ → String → String → Table String ProcessSession → Table String ProcessSession
end_session observed_at reason id t = elim (get id t) [
  | none ↦ t
  | some s ↦ put id (record s { ended_at = some observed_at; exit_reason = some reason }) t
]

-- The second loop.
unfoldable pub take_over : Env → String → String → ℕ → List (String × String) → Db → Db
unfolding end_session
take_over env run_id session_id observed_at [] db = db
take_over env run_id session_id observed_at ((id, reason) ∷ rest) db =
    take_over env run_id session_id observed_at rest (
      emit env run_id "session.stale" id
        (field "taken_over_by" (text session_id) (field "reason" (text reason) end))
        (record db { process_sessions = end_session observed_at reason id db.process_sessions }))

abbrev stale_ids : List (String × String) → List String
stale_ids stale = map (λ row. row.0) stale

-- Returns `idempotent` and `stale_session_ids`.
unfoldable pub open_process_session :
    Env
    → Host
    → String
    → String
    → Option ℤ
    → Option String
    → Option Float
    → List String
    → Option ℕ
    → Db
    → Result ((Bool × List String) × Db)
open_process_session env host session_id run_id pid name after proven now db = do
  require (not (elim after [ none ↦ false | some t ↦ ltb_float t zero_float ]))
      (repository_error "stale_after_seconds must be non-negative")
  let observed_at = observed now env
  let process_id = or_default pid host.process_id
  let hostname = or_default name host.hostname
  require (is_some (get run_id db.runs)) (repository_error "unknown run")
  on_row (get session_id db.process_sessions)
      (λ existing. do
        require
            (existing.run_id == run_id
              && existing.pid == some process_id
              && existing.host == some hostname)
            (repository_error "conflicting replay for process session")
        require (not (is_some existing.ended_at))
            (repository_error "process session is already closed")
        ok ((true, []), db))
      (do
        stale ← judge host observed_at after proven (active_sessions run_id db.process_sessions)
        let db' = take_over env run_id session_id observed_at stale db
        let opened : ProcessSession = record {
          run_id = run_id;
          pid = some process_id;
          host = some hostname;
          started_at = observed_at;
          ended_at = none;
          monotonic_seconds = zero_float;
          last_heartbeat = some observed_at;
          exit_reason = none;
          console_log_sha256 = none;
        }
        ok (
          (false, stale_ids stale),
          emit env run_id "session.opened" session_id
              (field "pid" (int_or_null (some process_id)) (
                field "host" (text_or_null (some hostname))
                  (field "stale_session_ids" (texts (stale_ids stale)) end)))
              (record db' { process_sessions = put session_id opened db'.process_sessions }),
        ))

-- Returns the flag `idempotent`.
unfoldable pub heartbeat_process_session :
    Env → String → Float → Option String → Option ℕ → Db → Result (Bool × Db)
heartbeat_process_session env session_id seconds console now db = do
  require (not (ltb_float seconds zero_float))
      (repository_error "monotonic_seconds must be non-negative")
  row ←
      require_some (get session_id db.process_sessions) (repository_error "unknown process session")
  require (not (is_some row.ended_at)) (repository_error "process session is already closed")
  require (not (ltb_float seconds row.monotonic_seconds))
      (repository_error "session monotonic clock moved backwards")
  let row' = record row {
    monotonic_seconds = seconds;
    last_heartbeat = some (observed now env);
    console_log_sha256 = coalesce console row.console_log_sha256;
  }
  if (seconds == row.monotonic_seconds && console == row.console_log_sha256)
      then ok (true, db)
      else ok (false, record db { process_sessions = put session_id row' db.process_sessions })

-- Returns the flag `idempotent`.
unfoldable pub close_process_session :
    Env → String → String → Option Float → Option String → Option ℕ → Db → Result (Bool × Db)
close_process_session env session_id reason seconds console now db = do
  row ←
      require_some (get session_id db.process_sessions) (repository_error "unknown process session")
  let final_monotonic = or_default seconds row.monotonic_seconds
  require (not (ltb_float final_monotonic row.monotonic_seconds))
      (repository_error "session monotonic clock moved backwards")
  let final_log = or_text console row.console_log_sha256
  if is_some row.ended_at
      then (do
        require
            (row.exit_reason == some reason
              && row.monotonic_seconds == final_monotonic
              && row.console_log_sha256 == final_log)
            (repository_error "conflicting replay for process session close")
        ok (true, db))
      else (do
        let ended_at = observed now env
        let row' = record row {
          ended_at = some ended_at;
          last_heartbeat = some ended_at;
          exit_reason = some reason;
          monotonic_seconds = final_monotonic;
          console_log_sha256 = final_log;
        }
        ok (
          false,
          emit env row.run_id "session.closed" session_id
              (field "exit_reason" (text reason)
                (field "monotonic_seconds" (real final_monotonic) end))
              (record db { process_sessions = put session_id row' db.process_sessions }),
        ))
