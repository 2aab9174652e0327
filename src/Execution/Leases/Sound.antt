-- ===== src/Execution/Leases/Sound.antt =====
-- When no error but a refusal leaves `recover_orphan_worker` of src/rex/execution/lease.py.
use tiktok_techjam_recsys_ag.Prelude.{
  ◌≡◌, ◌≢◌, refl, inl, inr, true, not, ◌||◌, Option, none, some, List, [], ◌∷◌, String, ◌==◌,
  string_eq, option_eq, contains, map, Bool-cases, suc,
}
use tiktok_techjam_recsys_ag.Prelude.Int.{ℤ, pos, leb_ℤ, int_eq}
use tiktok_techjam_recsys_ag.Execution.Leases.{
  Marker, active, marker_state_eq, TokenHash, no_hash, unhashable, hash, Identity, Inspection,
  no_process, not_permitted, no_command, uninspectable, observed, CommandLine, unread, undecodable,
  arguments, Delivery, delivered, no_group, denied, Host, escape, apart, judge_command, judge_token,
  judge_identity, judge_created, judge_gone, judge_process, judge_group, judge_boot, judge,
  LeaseFile, missing, corrupt, malformed, lease, Signal, sigterm, sigkill, interrupted, after_kill,
  after_term, is_empty, wait_exit, terminate_group,
}
use tiktok_techjam_recsys_ag.Execution.Leases.Judged.{passed}

-- The fields of the lease are what the code converts them to.
abbrev pub IsWellFormed : LeaseFile → Type 0
IsWellFormed missing = Unit
IsWellFormed corrupt = Unit
IsWellFormed malformed = ⊥
IsWellFormed (lease marker) =
    (marker.boot_time ≢ none)
    × (marker.pid ≢ none)
    × (marker.pgid ≢ none)
    × (marker.create_time ≢ none)
    × (marker.identity_token_sha256 ≢ unhashable)

-- The host lets the recovery inspect and signal processes and write its files, and the lease is well formed.
pub record Sound (host : Host) (file : LeaseFile) : Type 0 where
  pub well_formed : IsWellFormed file
  pub inspects : (pid : ℤ) → host.inspect pid ≢ uninspectable
  pub reads : (pid : ℤ) → host.command_line pid ≢ undecodable
  pub signals : (signal : Signal) → host.delivers signal ≢ denied
  pub records : host.records ≡ true
  pub writes : host.writes ≡ true

module _ (host : Host) (marker : Marker) (sound : Sound host (lease marker)) where
  command_answers : (pid : ℤ) (seen : Identity) → judge_command marker pid seen ≢ escape
  command_answers pid seen h =
      let p = passed (not (seen.command_sha256 == marker.command_sha256)) _ _ h (λ q. cc) in
      let q = passed (not (some seen.executable == marker.executable)) _ _ p.1 (λ q. cc) in cc q.1

  token_answers :
      (token : String) (pid : ℤ) (line : CommandLine)
      → host.command_line pid ≡ line
      → judge_token host token pid line ≢ escape
  token_answers token pid unread shown h = cc
  token_answers token pid undecodable shown h = sound.reads pid shown
  token_answers token pid (arguments given) shown h =
      let p = passed (not (contains token (map host.sha256 given))) _ _ h (λ q. cc) in cc p.1

  identity_answers :
      (pid : ℤ) (seen : Identity) (token : TokenHash)
      → marker.identity_token_sha256 ≡ token
      → judge_identity host marker pid seen token ≢ escape
  identity_answers pid seen no_hash given h = command_answers pid seen h
  identity_answers pid seen unhashable given h = sound.well_formed.4 given
  identity_answers pid seen (hash token) given h = elim (Bool-cases (token == "")) [
    | inl blank ↦ command_answers pid seen (rw blank at h)
    | inr kept ↦ token_answers token pid (host.command_line pid) refl (rw kept at h)
  ]

  created_answers :
      (pid : ℤ) (seen : Identity) (created : Option ℤ)
      → marker.create_time ≡ created
      → judge_created host marker pid seen created ≢ escape
  created_answers pid seen none given h = sound.well_formed.3 given
  created_answers pid seen (some created) given h =
      let p = passed (apart seen.create_time created) _ _ h (λ q. cc) in
      let q = passed (not (seen.pgid == pid)) _ _ p.1 (λ q. cc) in
      identity_answers pid seen marker.identity_token_sha256 refl q.1

  gone_answers : (pids : List ℤ) → judge_gone pids ≢ escape
  gone_answers [] h = cc
  gone_answers (_ ∷ _) h = cc

  process_answers :
      (pid : ℤ) (found : Inspection)
      → host.inspect pid ≡ found
      → judge_process host marker pid found ≢ escape
  process_answers pid no_process shown h = gone_answers (host.members 0) h
  process_answers pid not_permitted shown h = cc
  process_answers pid no_command shown h = cc
  process_answers pid uninspectable shown h = sound.inspects pid shown
  process_answers pid (observed seen) shown h = created_answers pid seen marker.create_time refl h

  group_answers :
      (pid pgid : Option ℤ)
      → marker.pid ≡ pid
      → marker.pgid ≡ pgid
      → judge_group host marker pid pgid ≢ escape
  group_answers none pgid given leads h = sound.well_formed.1 given
  group_answers (some pid) none given leads h = sound.well_formed.2 leads
  group_answers (some pid) (some pgid) given leads h =
      let t = passed (leb_ℤ pid (pos 1) || not (pgid == pid)) _ _ h (λ q. cc) in
      process_answers pid (host.inspect pid) refl t.1

  boot_answers : (boot : Option ℤ) → marker.boot_time ≡ boot → judge_boot host marker boot ≢ escape
  boot_answers none given h = sound.well_formed.0 given
  boot_answers (some boot) given h =
      let p = passed (apart boot host.boot_time) _ _ h (λ q. cc) in
      group_answers marker.pid marker.pgid refl refl p.1

  -- The checks end in a verdict.
  pub judge_answers : (request execution : String) → judge host request execution marker ≢ escape
  unfolding judge
  judge_answers request execution h =
      let p = passed (not (marker.request_sha256 == request)) _ _ h (λ q. cc) in
      let q = passed (not (marker.execution_sha256 == execution)) _ _ p.1 (λ q. cc) in
      let r = passed (not (marker.state == active)) _ _ q.1 (λ q. cc) in
      let s = passed (not (marker.hostname == host.hostname)) _ _ r.1 (λ q. cc) in
      boot_answers marker.boot_time refl s.1

  -- No error of `os.killpg` leaves `_terminate_group`.
  pub group_completes : (pgid : ℤ) → (terminate_group host pgid).1 ≢ interrupted
  unfolding terminate_group
  group_completes pgid h = elim (Bool-cases (is_empty (host.members 0))) [
    | inl gone ↦ cc (rw gone at h)
    | inr alive ↦ after (host.delivers sigterm) refl (rw alive at h)
  ]
    where
      killed :
          (answer : Delivery)
          → host.delivers sigkill ≡ answer
          → (after_kill host pgid (host.members 0) answer).1 ≢ interrupted
      killed denied sent h' = sound.signals sigkill sent
      killed no_group sent h' = cc
      killed delivered sent h' =
          elim (Bool-cases
            (wait_exit host.members (suc (host.looks sigterm)) (host.looks sigkill))) [
              | inl quick ↦ cc (rw quick at h')
              | inr lasts ↦ cc (rw lasts at h')
            ]

      after :
          (answer : Delivery)
          → host.delivers sigterm ≡ answer
          → (after_term host pgid (host.members 0) answer).1 ≢ interrupted
      after denied sent h' = sound.signals sigterm sent
      after no_group sent h' = cc
      after delivered sent h' = elim (Bool-cases (wait_exit host.members 1 (host.looks sigterm))) [
        | inl quick ↦ cc (rw quick at h')
        | inr lasts ↦ killed (host.delivers sigkill) refl (rw lasts at h')
      ]
