-- ===== src/Execution/Leases.antt =====
-- src/rex/execution/lease.py: `recover_orphan_worker`, with what it asks of the host and what it does to
-- it. Times of the host are microseconds. The lease file is what `_read_marker` finds in it.
pub mod Judged
pub mod Verified
pub mod Sound
pub mod Outcomes
pub mod Begin
use tiktok_techjam_recsys_ag.Prelude.{
  ℕ, zero, suc, Bool, true, false, not, ◌&&◌, ◌||◌, Option, none, some, List, [], ◌∷◌, ◌++◌, String,
  ◌==◌, Eq, string_eq, option_eq, contains, map, if◌then◌else◌,
}
use tiktok_techjam_recsys_ag.Prelude.Int.{ℤ, pos, ◌-ℤ◌, leb_ℤ, ltb_ℤ, int_eq}

pub data MarkerState : Type 0 where
  active closed recovered : MarkerState

unfoldable pub MarkerState-discrete : Discrete MarkerState
MarkerState-discrete = hlevel

instance abbrev pub marker_state_eq : Eq MarkerState
marker_state_eq = record { dec = MarkerState-discrete }

-- The field `identity_token_sha256`: a false value, a text, or a list or a dictionary, which no set holds.
pub data TokenHash : Type 0 where
  no_hash unhashable : TokenHash
  hash : String → TokenHash

-- What the lease file holds. A number is `none` where `float` or `int` refuses the field.
pub record Marker : Type 0 where
  pub state : MarkerState
  pub hostname : String
  pub boot_time : Option ℤ
  pub pid : Option ℤ
  pub pgid : Option ℤ
  pub create_time : Option ℤ
  pub command_sha256 : String
  pub executable : Option String
  pub identity_token_sha256 : TokenHash
  pub request_sha256 : String
  pub execution_sha256 : String
  pub closed_reason : Option String
  pub closed_at_epoch_ms : Option ℕ

-- `_process_identity`
pub record Identity : Type 0 where
  pub pgid : ℤ
  pub create_time : ℤ
  pub command_sha256 : String
  pub executable : String

-- How `psutil.Process(pid)` and `_process_identity` end: NoSuchProcess, an OSError or AccessDenied, an
-- empty command line, an identity, or an error that the recovery does not catch.
pub data Inspection : Type 0 where
  no_process not_permitted no_command uninspectable : Inspection
  observed : Identity → Inspection

-- How the hashes of `process.cmdline()` end: an OSError or a psutil.Error, the arguments, or an error that the
-- recovery does not catch, such as an argument that is not UTF-8.
pub data CommandLine : Type 0 where
  unread undecodable : CommandLine
  arguments : List String → CommandLine

pub data Signal : Type 0 where
  sigterm sigkill : Signal

-- How `os.killpg` ends: it returns, or raises ProcessLookupError or another OSError, which nothing catches.
pub data Delivery : Type 0 where
  delivered no_group denied : Delivery

-- What the host answers. `members n` is the n-th look of `_group_members` at the group, in the order of the
-- process numbers, and `looks` how often the wait loop runs before its deadline. `records` and `writes` tell
-- whether the recovery file and the lease file can be written.
pub record Host : Type 0 where
  pub hostname : String
  pub boot_time : ℤ
  pub inspect : ℤ → Inspection
  pub command_line : ℤ → CommandLine
  pub sha256 : String → String
  pub members : ℕ → List ℤ
  pub delivers : Signal → Delivery
  pub looks : Signal → ℕ
  pub records : Bool
  pub writes : Bool
  pub now : ℕ

-- The `WorkerLeaseError`s of the recovery.
pub data Refusal : Type 0 where
  unreadable other_request other_execution foreign_host unsafe_group unverifiable_group
        not_inspected command_not_observed :
      Refusal
  reused changed_group token_not_read changed_token changed_command changed_executable survived :
      Refusal

pub data Termination : Type 0 where
  already_exited by_sigterm by_sigkill : Termination

-- The events of the recovery file.
pub data Event : Type 0 where
  stale_lease : ℕ → Marker → Event
  terminated : ℕ → Marker → Termination → List ℤ → Event
  refused : ℕ → Refusal → String → Event

-- What the recovery does, in order: a call of `os.killpg`, an event appended to the recovery file, and the
-- lease file written.
pub data Effect : Type 0 where
  killpg : ℤ → Signal → Effect
  record_recovery : Event → Effect
  write_marker : Marker → Effect

-- `abs(a - b) > 0.001`
abbrev pub apart : ℤ → ℤ → Bool
apart a b = ltb_ℤ (pos 1000) (a -ℤ b) || ltb_ℤ (pos 1000) (b -ℤ a)

-- What the checks of `recover_orphan_worker` come to; `escape` is an error that is no WorkerLeaseError.
pub data Verdict : Type 0 where
  leave stale escape : Verdict
  terminate : ℤ → Verdict
  refuse : Refusal → Verdict

-- The checks of the token, or of the command and the executable; the empty token is false.
abbrev pub judge_command : Marker → ℤ → Identity → Verdict
judge_command marker pid seen =
    if not (seen.command_sha256 == marker.command_sha256)
    then refuse changed_command
    else if not (some seen.executable == marker.executable)
    then refuse changed_executable
    else terminate pid

abbrev pub judge_token : Host → String → ℤ → CommandLine → Verdict
judge_token host token pid unread = refuse token_not_read
judge_token host token pid undecodable = escape
judge_token host token pid (arguments given) =
    if not (contains token (map host.sha256 given)) then refuse changed_token else terminate pid

-- The hashes of the arguments are made before the token is looked up among them.
abbrev pub judge_unhashable : CommandLine → Verdict
judge_unhashable unread = refuse token_not_read
judge_unhashable undecodable = escape
judge_unhashable (arguments given) = escape

abbrev pub judge_identity : Host → Marker → ℤ → Identity → TokenHash → Verdict
judge_identity host marker pid seen no_hash = judge_command marker pid seen
judge_identity host marker pid seen unhashable = judge_unhashable (host.command_line pid)
judge_identity host marker pid seen (hash token) =
    if token == ""
    then judge_command marker pid seen
    else judge_token host token pid (host.command_line pid)

abbrev pub judge_created : Host → Marker → ℤ → Identity → Option ℤ → Verdict
judge_created host marker pid seen none = escape
judge_created host marker pid seen (some created) =
    if apart seen.create_time created
    then refuse reused
    else if not (seen.pgid == pid)
    then refuse changed_group
    else judge_identity host marker pid seen marker.identity_token_sha256

abbrev pub judge_gone : List ℤ → Verdict
judge_gone [] = stale
judge_gone (_ ∷ _) = refuse unverifiable_group

abbrev pub judge_process : Host → Marker → ℤ → Inspection → Verdict
judge_process host marker pid no_process = judge_gone (host.members 0)
judge_process host marker pid not_permitted = refuse not_inspected
judge_process host marker pid no_command = refuse command_not_observed
judge_process host marker pid uninspectable = escape
judge_process host marker pid (observed seen) =
    judge_created host marker pid seen marker.create_time

abbrev pub judge_group : Host → Marker → Option ℤ → Option ℤ → Verdict
judge_group host marker none pgid = escape
judge_group host marker (some pid) none = escape
judge_group host marker (some pid) (some pgid) =
    if leb_ℤ pid (pos 1) || not (pgid == pid)
    then refuse unsafe_group
    else judge_process host marker pid (host.inspect pid)

abbrev pub judge_boot : Host → Marker → Option ℤ → Verdict
judge_boot host marker none = escape
judge_boot host marker (some boot) =
    if apart boot host.boot_time
    then refuse foreign_host
    else judge_group host marker marker.pid marker.pgid

unfoldable pub judge : Host → String → String → Marker → Verdict
judge host request execution marker =
    if not (marker.request_sha256 == request)
    then refuse other_request
    else if not (marker.execution_sha256 == execution)
    then refuse other_execution
    else if not (marker.state == active)
    then leave
    else if not (marker.hostname == host.hostname)
    then refuse foreign_host
    else judge_boot host marker marker.boot_time

abbrev pub is_empty : List ℤ → Bool
is_empty [] = true
is_empty (_ ∷ _) = false

-- `while time.monotonic() < deadline`: whether a look from the n-th on finds the group gone.
unfoldable pub wait_exit : (ℕ → List ℤ) → ℕ → ℕ → Bool
wait_exit members n zero = false
wait_exit members n (suc looks) =
    let rest = wait_exit members (suc n) looks in if is_empty (members n) then true else rest

-- How `_terminate_group` ends: it returns the members and how they ended, the group survives SIGKILL, or an
-- error of `os.killpg` leaves it.
pub data Ending : Type 0 where
  ended : List ℤ → Termination → Ending
  outlived interrupted : Ending

abbrev pub after_kill : Host → ℤ → List ℤ → Delivery → List Effect × Ending
after_kill host pgid found answer = (killpg pgid sigterm ∷ killpg pgid sigkill ∷ [], ending answer)
  where
    ending : Delivery → Ending
    ending denied = interrupted
    ending no_group = ended found by_sigterm
    ending delivered =
        if wait_exit host.members (suc (host.looks sigterm)) (host.looks sigkill)
        then ended found by_sigkill
        else outlived

abbrev pub after_term : Host → ℤ → List ℤ → Delivery → List Effect × Ending
after_term host pgid found denied = (killpg pgid sigterm ∷ [], interrupted)
after_term host pgid found no_group = (killpg pgid sigterm ∷ [], ended found already_exited)
after_term host pgid found delivered =
    if wait_exit host.members 1 (host.looks sigterm)
    then (killpg pgid sigterm ∷ [], ended found by_sigterm)
    else after_kill host pgid found (host.delivers sigkill)

unfoldable pub terminate_group : Host → ℤ → List Effect × Ending
terminate_group host pgid =
    if is_empty (host.members 0)
    then ([], ended (host.members 0) already_exited)
    else after_term host pgid (host.members 0) (host.delivers sigterm)

-- What `_read_marker` finds: it raises a WorkerLeaseError, or a TypeError for a state that no set holds.
pub data LeaseFile : Type 0 where
  missing corrupt malformed : LeaseFile
  lease : Marker → LeaseFile

-- What the recovery returns or raises; `escaped` is an error that is no WorkerLeaseError.
pub data Outcome : Type 0 where
  nothing escaped : Outcome
  reported : Event → Outcome
  raised : Refusal → Outcome

abbrev pub settled_marker : Host → String → Marker → Marker
settled_marker host reason marker = record marker {
  state = recovered;
  closed_reason = some reason;
  closed_at_epoch_ms = some host.now;
}

-- `except WorkerLeaseError`, after what was done before the error.
abbrev pub refuse_with : Host → String → List Effect → Refusal → List Effect × Outcome
refuse_with host request before reason =
    if host.records
    then (before ++ record_recovery (refused host.now reason request) ∷ [], raised reason)
    else (before, escaped)

abbrev pub settle : Host → String → Marker → List Effect → Event → List Effect × Outcome
settle host reason marker before event =
    if not host.records
    then (before, escaped)
    else if not host.writes
    then (before ++ record_recovery event ∷ [], escaped)
    else (
      before ++ record_recovery event ∷ write_marker (settled_marker host reason marker) ∷ [],
      reported event,
    )

abbrev pub after_group : Host → String → Marker → List Effect × Ending → List Effect × Outcome
after_group host request marker (before, outlived) = refuse_with host request before survived
after_group host request marker (before, interrupted) = (before, escaped)
after_group host request marker (before, ended pids how) =
    settle host "orphan-process-group-terminated" marker before
      (terminated host.now marker how pids)

abbrev pub act : Host → String → Marker → Verdict → List Effect × Outcome
act host request marker leave = ([], nothing)
act host request marker escape = ([], escaped)
act host request marker (refuse reason) = refuse_with host request [] reason
act host request marker stale =
    settle host "stale-lease-no-process" marker [] (stale_lease host.now marker)
act host request marker (terminate pgid) =
    after_group host request marker (terminate_group host pgid)

unfoldable pub recover_orphan_worker : Host → String → String → LeaseFile → List Effect × Outcome
recover_orphan_worker host request execution missing = ([], nothing)
recover_orphan_worker host request execution corrupt = refuse_with host request [] unreadable
recover_orphan_worker host request execution malformed = ([], escaped)
recover_orphan_worker host request execution (lease marker) =
    act host request marker (judge host request execution marker)
