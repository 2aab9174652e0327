-- ===== src/Execution/Leases/Begin.antt =====
-- src/rex/execution/lease.py: `begin_worker_lease`. `none` is a WorkerLeaseError; the fields of the lease that
-- its recovery does not read are left out.
pub mod Watched
pub mod Recovered
use tiktok_techjam_recsys_ag.Prelude.{
  ℕ, zero, suc, Bool, true, false, not, ◌&&◌, Option, none, some, List, String, ◌==◌, string_eq,
  contains, if◌then◌else◌,
}
use tiktok_techjam_recsys_ag.Prelude.Int.{ℤ, int_eq}
use tiktok_techjam_recsys_ag.Execution.Leases.{Identity, Marker, TokenHash, no_hash, hash, active}

-- What the call sees of a launched worker: whether `psutil.Process(pid)` finds it, and at the n-th pass of the
-- loop its identity with the command line of the second reading, or an error, and whether it still runs.
pub record Launch : Type 0 where
  pub hostname : String
  pub boot_time : ℤ
  pub sha256 : String → String
  pub is_found : Bool
  pub sighting : ℕ → Option (Identity × List String)
  pub is_running : ℕ → Bool

abbrev pub has_token : Option String → List String → Bool
has_token none arguments = true
has_token (some token) arguments = contains token arguments

-- `stable_key != prior_stable_key`, without a token never
abbrev pub is_stable : Option String → Identity → Option Identity → Bool
is_stable none seen prior = true
is_stable (some token) seen none = false
is_stable (some token) seen (some prior) =
    seen.pgid == prior.pgid
    && seen.create_time == prior.create_time
    && seen.executable == prior.executable

-- A pass of the loop; `again` is what follows it, with the last key seen.
abbrev pub pass :
    Option String
    → Bool
    → Option Identity
    → (Option Identity → Option Identity)
    → Option (Identity × List String)
    → Option Identity
pass token running prior again none = if running then again prior else none
pass token running prior again (some (seen, arguments)) =
    if has_token token arguments
    then (if is_stable token seen prior then some seen else again (some seen))
    else if running
    then again prior
    else none

-- `for _ in range(50)`, from the n-th pass on.
unfoldable pub watch : Launch → Option String → ℕ → ℕ → Option Identity → Option Identity
watch launch token n zero prior = none
watch launch token n (suc passes) prior =
    pass token (launch.is_running n) prior (λ p. watch launch token (suc n) passes p)
      (launch.sighting n)

abbrev pub hashed : Launch → Option String → TokenHash
hashed launch none = no_hash
hashed launch (some token) = hash (launch.sha256 token)

abbrev pub active_marker : Launch → ℤ → String → String → Option String → Identity → Marker
active_marker launch pid request execution token seen = record {
  state = active;
  hostname = launch.hostname;
  boot_time = some launch.boot_time;
  pid = some pid;
  pgid = some seen.pgid;
  create_time = some seen.create_time;
  command_sha256 = seen.command_sha256;
  executable = some seen.executable;
  identity_token_sha256 = hashed launch token;
  request_sha256 = request;
  execution_sha256 = execution;
  closed_reason = none;
  closed_at_epoch_ms = none;
}

abbrev pub lease_of : Launch → ℤ → String → String → Option String → Option Identity → Option Marker
lease_of launch pid request execution token none = none
lease_of launch pid request execution token (some seen) =
    if not (seen.pgid == pid)
    then none
    else some (active_marker launch pid request execution token seen)

unfoldable pub begin_worker_lease : Launch → ℤ → String → String → Option String → Option Marker
begin_worker_lease launch pid request execution token =
    if not launch.is_found
    then none
    else lease_of launch pid request execution token (watch launch token 0 50 none)
