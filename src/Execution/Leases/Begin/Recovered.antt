-- ===== src/Execution/Leases/Begin/Recovered.antt =====
-- A worker that `begin_worker_lease` of src/rex/execution/lease.py saw, before `recover_orphan_worker`.
use tiktok_techjam_recsys_ag.Prelude.{
  ℕ, zero, suc, ◌≡◌, ◌≤◌, ◌<◌, ◌+◌, nat_eq, refl, ap, inl, inr, true, false, some, List, [], ◌∷◌,
  String, ◌==◌, string_eq, contains, map, Bool-cases, eq_of_==, ==_refl, arith,
}
use tiktok_techjam_recsys_ag.Prelude.Int.{ℤ, pos, leb_ℤ, ◌-ℤ◌, int_eq}
use tiktok_techjam_recsys_ag.Execution.Leases.{
  Host, Marker, MarkerState-discrete, marker_state_eq, Identity, observed, arguments, apart, judge,
  terminate, delivered, sigterm, is_empty, wait_exit, terminate_group, ended, by_sigterm,
  terminated, Effect, killpg, record_recovery, write_marker, settled_marker, Outcome, reported,
  lease, recover_orphan_worker,
}
use tiktok_techjam_recsys_ag.Execution.Leases.Begin.{Launch, active_marker, begin_worker_lease}
use tiktok_techjam_recsys_ag.Execution.Leases.Begin.Watched.{Starts, begin-Starts}

-- The recovery is on the host of the launch, and sees the worker as the launch saw it.
pub record StillRuns (launch : Launch) (host : Host) (pid : ℤ) (seen : Identity)
    (given : List String) : Type 0 where
  pub same_host : host.hostname ≡ launch.hostname
  pub same_boot : host.boot_time ≡ launch.boot_time
  pub same_sha256 : (text : String) → launch.sha256 text ≡ host.sha256 text
  pub not_empty : (text : String) → (host.sha256 text == "") ≡ false
  pub inspected : host.inspect pid ≡ observed seen
  pub shown : host.command_line pid ≡ arguments given

-- The group has members, takes SIGTERM, and is gone at a look of the first wait; the files can be written.
pub record Yields (host : Host) (k : ℕ) : Type 0 where
  pub alive : is_empty (host.members 0) ≡ false
  pub takes : host.delivers sigterm ≡ delivered
  pub in_time : k < host.looks sigterm
  pub gone : host.members (suc k) ≡ []
  pub records : host.records ≡ true
  pub writes : host.writes ≡ true

contains-map :
    (f : String → String) (x : String) (xs : List String)
    → contains x xs ≡ true
    → contains (f x) (map f xs) ≡ true
contains-map f x [] h = cc
contains-map f x (y ∷ ys) h = elim (Bool-cases (y == x)) [
  | inl same ↦ rw (ap f (eq_of_== same), ==_refl (f x)) refl
  | inr other ↦ let rest = contains-map f x ys (ground arith) in ground arith
]

apart_self : (a : ℤ) → apart a a ≡ false
unfolding ◌-ℤ◌
apart_self a = ground arith

-- A look that finds the group gone ends the wait.
wait_exit_found :
    (members : ℕ → List ℤ) (n k looks : ℕ)
    → n ≤ k
    → k < n + looks
    → members k ≡ []
    → wait_exit members n looks ≡ true
unfolding wait_exit
wait_exit_found members n k zero low high gone = absurd (omega arith)
wait_exit_found members n k (suc looks) low high gone = elim (Bool-cases (n == k)) [
  | inl here ↦ let at_k : n ≡ k = eq_of_== here in rw (at_k, gone) refl
  | inr later ↦
      let rest = wait_exit_found members (suc n) k looks (ground arith) (omega arith) gone in
      ground (arith, rest)
]

judge_begun :
    (launch : Launch) (host : Host) (pid : ℤ) (request execution token : String) (seen : Identity)
    (given : List String)
    → StillRuns launch host pid seen given
    → leb_ℤ pid (pos 1) ≡ false
    → seen.pgid ≡ pid
    → contains token given ≡ true
    → judge host request execution (active_marker launch pid request execution (some token) seen)
      ≡ terminate pid
unfolding judge MarkerState-discrete
judge_begun launch host pid request execution token seen given still above leads has =
    rw
      (
        ==_refl request,
        ==_refl execution,
        still.same_host,
        ==_refl launch.hostname,
        still.same_boot,
        apart_self launch.boot_time,
        leads,
        above,
        ==_refl pid,
        still.inspected,
        apart_self seen.create_time,
        leads,
        ==_refl pid,
        still.same_sha256 token,
        still.not_empty token,
        still.shown,
        contains-map host.sha256 token given has,
      )
      refl

group-Yields :
    (host : Host) (k : ℕ) (pgid : ℤ)
    → Yields host k
    → terminate_group host pgid ≡ (killpg pgid sigterm ∷ [], ended (host.members 0) by_sigterm)
unfolding terminate_group
group-Yields host k pgid yields =
    rw
      (
        yields.alive,
        yields.takes,
        wait_exit_found host.members 1 (suc k) (host.looks sigterm) (omega arith)
            (omega (arith, yields.in_time)) yields.gone,
      )
      refl

-- What a recovery does that ends a group by SIGTERM, and what it returns.
abbrev pub ended_by_sigterm : Host → ℤ → Marker → List Effect × Outcome
ended_by_sigterm host pid marker =
    let event = terminated host.now marker by_sigterm (host.members 0) in
    (
      killpg pid sigterm
          ∷ record_recovery event
          ∷ write_marker (settled_marker host "orphan-process-group-terminated" marker)
          ∷ [],
      reported event,
    )

-- Where a launched worker that leads its group, above 1, shows its token within the 50 passes, at two passes
-- that follow one another, begin_worker_lease writes a lease. Where a recovery on the same host since the same
-- boot then sees the worker unchanged, and its group takes SIGTERM and is gone at a look of the first wait,
-- recover_orphan_worker of the same request and execution sends SIGTERM to the group, records that, marks the
-- lease as recovered, and returns the event.
pub begun_is_recovered :
    (launch : Launch) (host : Host) (pid : ℤ) (request execution token : String) (n k : ℕ)
    (seen : Identity) (given : List String)
    → Starts launch token n seen given
    → seen.pgid ≡ pid
    → leb_ℤ pid (pos 1) ≡ false
    → StillRuns launch host pid seen given
    → Yields host k
    → (marker : Marker) × (begin_worker_lease launch pid request execution (some token)
        ≡ some marker)
      × (recover_orphan_worker host request execution (lease marker)
          ≡ ended_by_sigterm host pid marker)
unfolding recover_orphan_worker
begun_is_recovered launch host pid request execution token n k seen given starts leads above still
      yields =
    let marker = active_marker launch pid request execution (some token) seen in
    (
      marker,
      begin-Starts launch token n seen given starts pid request execution leads,
      rw
          (
            judge_begun launch host pid request execution token seen given still above leads
                starts.has,
            group-Yields host k pid yields,
            yields.records,
            yields.writes,
          )
          refl,
    )
