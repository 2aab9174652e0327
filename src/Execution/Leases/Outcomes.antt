-- ===== src/Execution/Leases/Outcomes.antt =====
-- What `recover_orphan_worker` of src/rex/execution/lease.py leaves behind when it returns or raises.
use tiktok_techjam_recsys_ag.Prelude.{
  ◌≡◌, ◌≢◌, ◌⊎◌, refl, inl, inr, List, [], ◌∷◌, ◌++◌, String, string_eq, Bool-cases,
}
use tiktok_techjam_recsys_ag.Prelude.Int.{ℤ}
use tiktok_techjam_recsys_ag.Execution.Leases.Verified.{group_cases}
use tiktok_techjam_recsys_ag.Execution.Leases.Sound.{Sound, judge_answers, group_completes}
use tiktok_techjam_recsys_ag.Execution.Leases.{
  Marker, recovered, marker_state_eq, Host, Verdict, leave, stale, escape, terminate, refuse,
  Refusal, survived, unreadable, Effect, killpg, record_recovery, write_marker, Event, refused,
  terminated, stale_lease, Ending, ended, outlived, interrupted, Outcome, nothing, escaped,
  reported, raised, judge, LeaseFile, missing, corrupt, malformed, lease, terminate_group,
  refuse_with, settle, after_group, act, recover_orphan_worker, settled_marker,
}

-- Signals alone.
abbrev pub AllSignals : List Effect → Type 0
AllSignals [] = Unit {0}
AllSignals (killpg _ _ ∷ effects) = AllSignals effects
AllSignals (record_recovery _ ∷ effects) = ⊥
AllSignals (write_marker _ ∷ effects) = ⊥

-- The lease file is settled: it is the old lease in the state RECOVERED.
abbrev pub IsSettled : Marker → Marker → Type 0
IsSettled old new =
    (new.state ≡ recovered)
    × (new.request_sha256 ≡ old.request_sha256)
    × (new.execution_sha256 ≡ old.execution_sha256)

-- What was done, by what the recovery returns or raises: nothing; signals, the event that is returned, and
-- the lease marked as recovered; signals and the recorded refusal, with the lease left as it is; or, for
-- another error, signals and at most the recorded event, with the lease left as it is.
abbrev pub Settled : Host → String → LeaseFile → List Effect × Outcome → Type 0
Settled host request file (effects, nothing) = effects ≡ []
Settled host request file (effects, reported event) =
    (old : Marker) × (new : Marker) × (signals : List Effect) × (file ≡ lease old)
    × (effects ≡ signals ++ record_recovery event ∷ write_marker new ∷ [])
    × AllSignals signals
    × IsSettled old new
Settled host request file (effects, raised reason) =
    (signals : List Effect) × (effects
      ≡ signals ++ record_recovery (refused host.now reason request) ∷ [])
    × AllSignals signals
Settled host request file (effects, escaped) =
    (signals : List Effect) × AllSignals signals
    × ((effects ≡ signals) ⊎ ((event : Event) × (effects ≡ signals ++ record_recovery event ∷ [])))
    × (Sound host file → ⊥)

group_AllSignals : (host : Host) (pgid : ℤ) → AllSignals (terminate_group host pgid).0
group_AllSignals host pgid = elim (group_cases host pgid) [
  | inl none_sent ↦ rw none_sent tt
  | inr some_sent ↦ elim some_sent [ inl one ↦ rw one tt | inr two ↦ rw two tt ]
]

refuse-Settled :
    (host : Host) (request : String) (file : LeaseFile) (before : List Effect) (reason : Refusal)
    → AllSignals before
    → Settled host request file (refuse_with host request before reason)
refuse-Settled host request file before reason h = elim (Bool-cases host.records) [
  | inl kept ↦ rw kept (before, refl, h)
  | inr lost ↦ rw lost (before, h, inl refl, λ sound. cc (sound.records))
]

settle-Settled :
    (host : Host) (request reason : String) (marker : Marker) (before : List Effect) (event : Event)
    → AllSignals before
    → Settled host request (lease marker) (settle host reason marker before event)
settle-Settled host request reason marker before event h = elim (Bool-cases host.records) [
  | inr lost ↦ rw lost (before, h, inl refl, λ sound. cc (sound.records))
  | inl kept ↦ elim (Bool-cases host.writes) [
    | inr lost ↦ rw (kept, lost) (before, h, inr (event, refl), λ sound. cc (sound.writes))
    | inl written ↦
        rw (kept, written)
          (marker, settled_marker host reason marker, before, refl, refl, h, (refl, refl, refl))
  ]
]

after_group-Settled :
    (host : Host) (request : String) (marker : Marker) (group : List Effect × Ending)
    → AllSignals group.0
    → (Sound host (lease marker) → group.1 ≢ interrupted)
    → Settled host request (lease marker) (after_group host request marker group)
after_group-Settled host request marker (before, outlived) h completes =
    refuse-Settled host request (lease marker) before survived h
after_group-Settled host request marker (before, interrupted) h completes =
    (before, h, inl refl, λ sound. completes sound refl)
after_group-Settled host request marker (before, ended pids how) h completes =
    settle-Settled host request "orphan-process-group-terminated" marker before
      (terminated host.now marker how pids) h

act-Settled :
    (host : Host) (request : String) (marker : Marker) (v : Verdict)
    → (Sound host (lease marker) → v ≢ escape)
    → Settled host request (lease marker) (act host request marker v)
act-Settled host request marker leave answers = refl
act-Settled host request marker escape answers = ([], tt, inl refl, λ sound. answers sound refl)
act-Settled host request marker (refuse reason) answers =
    refuse-Settled host request (lease marker) [] reason tt
act-Settled host request marker stale answers =
    settle-Settled host request "stale-lease-no-process" marker [] (stale_lease host.now marker) tt
act-Settled host request marker (terminate pgid) answers =
    after_group-Settled host request marker (terminate_group host pgid) (group_AllSignals host pgid)
      (λ sound. group_completes host marker sound pgid)

-- A recovery that returns no event does nothing; one that returns an event has, after the signals, recorded
-- it and marked the lease as recovered; one that raises a WorkerLeaseError has recorded the refusal after the
-- signals and left the lease as it is; and one that another error leaves has made no more than the signals and
-- at most one record, with the lease left as it is. No other error leaves it where the fields of the lease
-- convert, the host lets it inspect and signal the processes, and its files can be written.
pub recover-Settled :
    (host : Host) (request execution : String) (file : LeaseFile)
    → Settled host request file (recover_orphan_worker host request execution file)
unfolding recover_orphan_worker
recover-Settled host request execution missing = refl
recover-Settled host request execution corrupt =
    refuse-Settled host request corrupt [] unreadable tt
recover-Settled host request execution malformed = ([], tt, inl refl, λ sound. sound.well_formed)
recover-Settled host request execution (lease marker) =
    act-Settled host request marker (judge host request execution marker)
      (λ sound. judge_answers host marker sound request execution)
