-- ===== src/Tests/Leases.antt =====
-- A worker that src/rex/execution/lease.py recovers.
use tiktok_techjam_recsys_ag.Prelude.{
  String, Bool, ℕ, ◌<◌, ◌≡◌, refl, String-discrete, true, none, some, List, [], ◌∷◌, ltb,
  if◌then◌else◌, ◌==◌, string_eq, false, arith,
}
use tiktok_techjam_recsys_ag.Prelude.Int.{ℤ, pos}
use tiktok_techjam_recsys_ag.Execution.Leases.{
  Marker, Identity, Host, active, hash, observed, arguments, delivered, LeaseFile, lease,
  recover_orphan_worker,
}
use tiktok_techjam_recsys_ag.Execution.Leases.Begin.{Launch, begin_worker_lease}
use tiktok_techjam_recsys_ag.Execution.Leases.Begin.Watched.{IsEarly, Starts}
use tiktok_techjam_recsys_ag.Execution.Leases.Begin.Recovered.{
  StillRuns, Yields, ended_by_sigterm, begun_is_recovered,
}
use tiktok_techjam_recsys_ag.Execution.Leases.Verified.{SignalsOnly, Permitted, signals-Permitted}
use tiktok_techjam_recsys_ag.Execution.Leases.Outcomes.{Settled, recover-Settled}

-- The group of the worker ends after the first look that follows SIGTERM.
abbrev members : ℕ → List ℤ
members n = if ltb n 2 then pos 700 ∷ [] else []

abbrev host : Host
host = record {
  hostname = "h";
  boot_time = pos 5;
  inspect = λ pid.
      observed
        (record { pgid = pid; create_time = pos 9; command_sha256 = "c"; executable = "python" });
  command_line = λ pid. arguments ("python" ∷ "t" ∷ []);
  sha256 = λ s. if s == "" then "empty" else s;
  members = members;
  delivers = λ signal. delivered;
  looks = λ signal. 40;
  records = true;
  writes = true;
  now = 100;
}

abbrev marker : Marker
marker = record {
  state = active;
  hostname = "h";
  boot_time = some (pos 5);
  pid = some (pos 700);
  pgid = some (pos 700);
  create_time = some (pos 9);
  command_sha256 = "c";
  executable = some "python";
  identity_token_sha256 = hash "t";
  request_sha256 = "q";
  execution_sha256 = "e";
  closed_reason = none;
  closed_at_epoch_ms = none;
}

abbrev file : LeaseFile
file = lease marker

signals-Permitted_example :
    SignalsOnly (Permitted host "q" "e" file) (recover_orphan_worker host "q" "e" file).0
signals-Permitted_example = signals-Permitted host "q" "e" file

recover-Settled_example : Settled host "q" file (recover_orphan_worker host "q" "e" file)
recover-Settled_example = recover-Settled host "q" "e" file

-- The launch of that worker; it completes exec at the second pass.
abbrev worker : Identity
worker = record { pgid = pos 700; create_time = pos 9; command_sha256 = "c"; executable = "python" }

abbrev launch : Launch
launch = record {
  hostname = "h";
  boot_time = pos 5;
  sha256 = host.sha256;
  is_found = true;
  sighting = λ n. if ltb n 1 then none else some (worker, "python" ∷ "t" ∷ []);
  is_running = λ n. true;
}

launch-Starts : Starts launch "t" 1 worker ("python" ∷ "t" ∷ [])
unfolding String-discrete
launch-Starts = record {
  found = refl;
  in_time = omega arith;
  early = early;
  runs = λ k l. refl;
  first = refl;
  second = refl;
  has = refl;
}
  where
    early : (k : ℕ) → k < 1 → IsEarly "t" (launch.sighting k)
    early k l = let first_pass : ltb k 1 ≡ true = ground arith in rw first_pass tt

abbrev empty_hash : String
empty_hash = "empty"

blank : (empty_hash == "") ≡ false
unfolding String-discrete
blank = refl

worker-StillRuns : StillRuns launch host (pos 700) worker ("python" ∷ "t" ∷ [])
worker-StillRuns = record {
  same_host = refl;
  same_boot = refl;
  same_sha256 = λ text. refl;
  not_empty = λ text. kept (text == "") text refl;
  inspected = refl;
  shown = refl;
}
  where
    kept :
        (b : Bool) (text : String)
        → (text == "") ≡ b
        → ((if b then empty_hash else text) == "") ≡ false
    kept true text h = blank
    kept false text h = h

host-Yields : Yields host 1
host-Yields = record {
  alive = refl;
  takes = refl;
  in_time = omega arith;
  gone = refl;
  records = refl;
  writes = refl;
}

begun_is_recovered_example :
    (lease_marker : Marker) × (begin_worker_lease launch (pos 700) "q" "e" (some "t")
      ≡ some lease_marker)
    × (recover_orphan_worker host "q" "e" (lease lease_marker)
        ≡ ended_by_sigterm host (pos 700) lease_marker)
begun_is_recovered_example =
    begun_is_recovered launch host (pos 700) "q" "e" "t" 1 1 worker ("python" ∷ "t" ∷ [])
      launch-Starts refl refl worker-StillRuns host-Yields
