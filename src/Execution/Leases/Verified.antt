-- ===== src/Execution/Leases/Verified.antt =====
-- Which process groups `recover_orphan_worker` of src/rex/execution/lease.py signals.
use tiktok_techjam_recsys_ag.Prelude.{
  ◌≡◌, ◌⊎◌, refl, inl, inr, List, [], ◌∷◌, ◌++◌, String, string_eq, option_eq, Bool-cases,
}
use tiktok_techjam_recsys_ag.Prelude.Int.{ℤ, int_eq}
use tiktok_techjam_recsys_ag.Execution.Leases.{
  Marker, marker_state_eq, Delivery, delivered, no_group, denied, Host, Verdict, leave, stale,
  escape, terminate, refuse, Refusal, Effect, killpg, record_recovery, write_marker, judge,
  LeaseFile, missing, corrupt, malformed, lease, terminate_group, after_term, after_group, act,
  recover_orphan_worker, is_empty, wait_exit, sigterm, sigkill, Ending, ended, outlived,
  interrupted, settle, refuse_with, survived, unreadable, Event, terminated, stale_lease,
}
use tiktok_techjam_recsys_ag.Execution.Leases.Judged.{Verified, judge-Verified}

-- Every signal of a run goes to a group for which the predicate holds.
abbrev pub SignalsOnly : (ℤ → Type 0) → List Effect → Type 0
SignalsOnly P [] = Unit {0}
SignalsOnly P (killpg group _ ∷ effects) = P group × SignalsOnly P effects
SignalsOnly P (record_recovery _ ∷ effects) = SignalsOnly P effects
SignalsOnly P (write_marker _ ∷ effects) = SignalsOnly P effects

-- The group may be signalled: the file holds a lease of this group that is verified.
abbrev pub Permitted : Host → String → String → LeaseFile → ℤ → Type 0
Permitted host request execution file group =
    (marker : Marker) × (file ≡ lease marker) × Verified host request execution marker group

SignalsOnly-append :
    (P : ℤ → Type 0) (before after : List Effect)
    → SignalsOnly P before
    → SignalsOnly P after
    → SignalsOnly P (before ++ after)
SignalsOnly-append P [] after h k = k
SignalsOnly-append P (killpg group sent ∷ before) after h k =
    (h.0, SignalsOnly-append P before after h.1 k)
SignalsOnly-append P (record_recovery event ∷ before) after h k =
    SignalsOnly-append P before after h k
SignalsOnly-append P (write_marker marker ∷ before) after h k =
    SignalsOnly-append P before after h k

-- The signals of `_terminate_group`: none, SIGTERM, or SIGTERM and then SIGKILL.
pub group_cases :
    (host : Host) (pgid : ℤ)
    → let sent = (terminate_group host pgid).0 in
      (sent ≡ [])
      ⊎ ((sent ≡ killpg pgid sigterm ∷ [])
          ⊎ (sent ≡ killpg pgid sigterm ∷ killpg pgid sigkill ∷ []))
unfolding terminate_group
group_cases host pgid = elim (Bool-cases (is_empty (host.members 0))) [
  | inl gone ↦ inl (rw gone refl)
  | inr alive ↦ rw alive (inr (after (host.delivers sigterm)))
]
  where
    after :
        (answer : Delivery)
        → let sent = (after_term host pgid (host.members 0) answer).0 in
          (sent ≡ killpg pgid sigterm ∷ [])
          ⊎ (sent ≡ killpg pgid sigterm ∷ killpg pgid sigkill ∷ [])
    after denied = inl refl
    after no_group = inl refl
    after delivered = elim (Bool-cases (wait_exit host.members 1 (host.looks sigterm))) [
      | inl quick ↦ inl (rw quick refl)
      | inr lasts ↦ inr (rw lasts refl)
    ]

-- `_terminate_group` signals its group alone.
group_signals :
    (P : ℤ → Type 0) (host : Host) (pgid : ℤ) → P pgid → SignalsOnly P (terminate_group host pgid).0
group_signals P host pgid h = elim (group_cases host pgid) [
  | inl none_sent ↦ rw none_sent tt
  | inr some_sent ↦ elim some_sent [ inl one ↦ rw one (h, tt) | inr two ↦ rw two (h, (h, tt)) ]
]

settle_signals :
    (P : ℤ → Type 0) (host : Host) (reason : String) (marker : Marker) (before : List Effect)
    (event : Event)
    → SignalsOnly P before
    → SignalsOnly P (settle host reason marker before event).0
settle_signals P host reason marker before event h = elim (Bool-cases host.records) [
  | inr lost ↦ rw lost h
  | inl kept ↦ elim (Bool-cases host.writes) [
    | inr lost ↦ rw (kept, lost) (SignalsOnly-append P before _ h tt)
    | inl written ↦ rw (kept, written) (SignalsOnly-append P before _ h tt)
  ]
]

refuse_signals :
    (P : ℤ → Type 0) (host : Host) (request : String) (before : List Effect) (reason : Refusal)
    → SignalsOnly P before
    → SignalsOnly P (refuse_with host request before reason).0
refuse_signals P host request before reason h = elim (Bool-cases host.records) [
  | inr lost ↦ rw lost h
  | inl kept ↦ rw kept (SignalsOnly-append P before _ h tt)
]

after_signals :
    (P : ℤ → Type 0) (host : Host) (request : String) (marker : Marker)
    (group : List Effect × Ending)
    → SignalsOnly P group.0
    → SignalsOnly P (after_group host request marker group).0
after_signals P host request marker (before, outlived) h =
    refuse_signals P host request before survived h
after_signals P host request marker (before, interrupted) h = h
after_signals P host request marker (before, ended pids how) h =
    settle_signals P host "orphan-process-group-terminated" marker before
      (terminated host.now marker how pids) h

act_signals :
    (P : ℤ → Type 0) (host : Host) (request : String) (marker : Marker) (v : Verdict)
    → ((group : ℤ) → v ≡ terminate group → P group)
    → SignalsOnly P (act host request marker v).0
act_signals P host request marker leave h = tt
act_signals P host request marker escape h = tt
act_signals P host request marker stale h =
    settle_signals P host "stale-lease-no-process" marker [] (stale_lease host.now marker) tt
act_signals P host request marker (refuse reason) h = refuse_signals P host request [] reason tt
act_signals P host request marker (terminate group) h =
    after_signals P host request marker (terminate_group host group)
      (group_signals P host group (h group refl))

-- `recover_orphan_worker` signals a process group only when the lease file is the active lease of the given
-- request and execution, written on this host since its boot, for a group above 1 that its own process
-- leads, and the process of that number now has the start time, the group and the token (or the command
-- and executable) of the lease.
pub signals-Permitted :
    (host : Host) (request execution : String) (file : LeaseFile)
    → SignalsOnly
        (Permitted host request execution file)
        (recover_orphan_worker host request execution file).0
unfolding recover_orphan_worker
signals-Permitted host request execution missing = tt
signals-Permitted host request execution corrupt = refuse_signals _ host request [] unreadable tt
signals-Permitted host request execution malformed = tt
signals-Permitted host request execution (lease marker) =
    act_signals _ host request marker (judge host request execution marker)
      (λ group h. (marker, refl, judge-Verified host request execution marker group h))
