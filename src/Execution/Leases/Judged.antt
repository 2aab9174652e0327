-- ===== src/Execution/Leases/Judged.antt =====
-- What the checks of `recover_orphan_worker` in src/rex/execution/lease.py have seen before it signals.
use mathlib.Core.Path.{subst}
use tiktok_techjam_recsys_ag.Prelude.{
  ◌≡◌, ◌⊎◌, refl, sym, ap, ◌∙◌, inl, inr, Eq, Bool, true, false, not, ◌||◌, Option, none, some,
  List, [], ◌∷◌, String, ◌==◌, string_eq, option_eq, contains, map, if◌then◌else◌, Bool-cases,
  eq_of_==, arith,
}
use tiktok_techjam_recsys_ag.Prelude.Int.{ℤ, pos, leb_ℤ, int_eq}
use tiktok_techjam_recsys_ag.Execution.Leases.{
  Marker, active, marker_state_eq, TokenHash, no_hash, unhashable, hash, Identity, Inspection,
  no_process, not_permitted, no_command, uninspectable, observed, CommandLine, unread, undecodable,
  arguments, Host, Verdict, terminate, apart, judge_command, judge_token, judge_unhashable,
  judge_identity, judge_created, judge_gone, judge_process, judge_group, judge_boot, judge,
}

-- The command line holds the token of the lease, or, for a lease without one, command and executable are
-- those of the lease.
abbrev pub SameCommand : Host → Marker → ℤ → Identity → Type 0
SameCommand host marker pid seen =
    ((token : String) × (given : List String) × (marker.identity_token_sha256 ≡ hash token)
      × (host.command_line pid ≡ arguments given)
      × (contains token (map host.sha256 given) ≡ true))
    ⊎ ((seen.command_sha256 ≡ marker.command_sha256) × (marker.executable ≡ some seen.executable))

-- The lease is the one of this worker, on this host since its last boot, and the process that leads the
-- group now is the process that the lease names.
pub record Verified (host : Host) (request execution : String) (marker : Marker) (group : ℤ)
    : Type 0 where
  pub same_request : marker.request_sha256 ≡ request
  pub same_execution : marker.execution_sha256 ≡ execution
  pub is_active : marker.state ≡ active
  pub same_host : marker.hostname ≡ host.hostname
  pub boot : ℤ
  pub boot_given : marker.boot_time ≡ some boot
  pub same_boot : apart boot host.boot_time ≡ false
  pub names : marker.pid ≡ some group
  pub leads : marker.pgid ≡ some group
  pub above_init : leb_ℤ group (pos 1) ≡ false
  pub seen : Identity
  pub inspected : host.inspect group ≡ observed seen
  pub created : ℤ
  pub created_given : marker.create_time ≡ some created
  pub same_process : apart seen.create_time created ≡ false
  pub same_group : seen.pgid ≡ group
  pub same_command : SameCommand host marker group seen

-- A test that fails the verdict was passed.
pub passed :
    (b : Bool) (v w : Verdict) {t : Verdict}
    → (if b then v else w) ≡ t
    → (v ≡ t → ⊥)
    → (b ≡ false) × (w ≡ t)
passed true v w h wrong = absurd (wrong h)
passed false v w h wrong = (refl, h)

named : {A : Type 0} → ⦃e : Eq A⦄ → {a b : A} → not (a == b) ≡ false → a ≡ b
named h = eq_of_== (ground arith)

neither : (a b : Bool) → (a || b) ≡ false → (a ≡ false) × (b ≡ false)
neither a b h = (ground arith, ground arith)

group_of : {a b : ℤ} → terminate a ≡ terminate b → a ≡ b
group_of h = cc

command-Same :
    (host : Host) (marker : Marker) (pid : ℤ) (seen : Identity) {group : ℤ}
    → judge_command marker pid seen ≡ terminate group
    → (pid ≡ group) × SameCommand host marker pid seen
command-Same host marker pid seen h =
    let p = passed (not (seen.command_sha256 == marker.command_sha256)) _ _ h (λ q. cc) in
    let q = passed (not (some seen.executable == marker.executable)) _ _ p.1 (λ q. cc) in
    (group_of q.1, inr (named p.0, sym (named q.0)))

token-Same :
    (host : Host) (marker : Marker) (pid : ℤ) (seen : Identity) (token : String)
    (line : CommandLine) {group : ℤ}
    → marker.identity_token_sha256 ≡ hash token
    → host.command_line pid ≡ line
    → judge_token host token pid line ≡ terminate group
    → (pid ≡ group) × SameCommand host marker pid seen
token-Same host marker pid seen token unread given shown h = cc
token-Same host marker pid seen token undecodable given shown h = cc
token-Same host marker pid seen token (arguments list) given shown h =
    let p = passed (not (contains token (map host.sha256 list))) _ _ h (λ q. cc) in
    (group_of p.1, inl (token, list, given, shown, ground arith))

unhashable_stops : (line : CommandLine) {group : ℤ} → judge_unhashable line ≡ terminate group → ⊥
unhashable_stops unread h = cc
unhashable_stops undecodable h = cc
unhashable_stops (arguments given) h = cc

identity-Same :
    (host : Host) (marker : Marker) (pid : ℤ) (seen : Identity) (token : TokenHash) {group : ℤ}
    → marker.identity_token_sha256 ≡ token
    → judge_identity host marker pid seen token ≡ terminate group
    → (pid ≡ group) × SameCommand host marker pid seen
identity-Same host marker pid seen no_hash given h = command-Same host marker pid seen h
identity-Same host marker pid seen unhashable given h =
    absurd (unhashable_stops (host.command_line pid) h)
identity-Same host marker pid seen (hash token) given h = elim (Bool-cases (token == "")) [
  | inl blank ↦ command-Same host marker pid seen (rw blank at h)
  | inr kept ↦
      token-Same host marker pid seen token (host.command_line pid) given refl (rw kept at h)
]

-- What an inspection must show.
abbrev ProcessVerified : Host → Marker → ℤ → Inspection → Type 0
ProcessVerified host marker pid found =
    (seen : Identity) × (found ≡ observed seen)
    × (created : ℤ) × (marker.create_time ≡ some created)
    × (apart seen.create_time created ≡ false)
    × (seen.pgid ≡ pid)
    × SameCommand host marker pid seen

gone_stops : (pids : List ℤ) {group : ℤ} → judge_gone pids ≡ terminate group → ⊥
gone_stops [] h = cc
gone_stops (_ ∷ _) h = cc

created-Verified :
    (host : Host) (marker : Marker) (pid : ℤ) (seen : Identity) (created : Option ℤ) {group : ℤ}
    → marker.create_time ≡ created
    → judge_created host marker pid seen created ≡ terminate group
    → (pid ≡ group) × ProcessVerified host marker pid (observed seen)
created-Verified host marker pid seen none given h = cc
created-Verified host marker pid seen (some created) given h =
    let p = passed (apart seen.create_time created) _ _ h (λ q. cc) in
    let q = passed (not (seen.pgid == pid)) _ _ p.1 (λ q. cc) in
    let r = identity-Same host marker pid seen marker.identity_token_sha256 refl q.1 in
    (r.0, (seen, refl, created, given, p.0, named q.0, r.1))

process-Verified :
    (host : Host) (marker : Marker) (pid : ℤ) (found : Inspection) {group : ℤ}
    → judge_process host marker pid found ≡ terminate group
    → (pid ≡ group) × ProcessVerified host marker pid found
process-Verified host marker pid no_process h = absurd (gone_stops (host.members 0) h)
process-Verified host marker pid not_permitted h = cc
process-Verified host marker pid no_command h = cc
process-Verified host marker pid uninspectable h = cc
process-Verified host marker pid (observed seen) h =
    created-Verified host marker pid seen marker.create_time refl h

group-Verified :
    (host : Host) (marker : Marker) (pid pgid : Option ℤ) {group : ℤ}
    → judge_group host marker pid pgid ≡ terminate group
    → (pid ≡ some group)
      × (pgid ≡ some group)
      × (leb_ℤ group (pos 1) ≡ false)
      × ProcessVerified host marker group (host.inspect group)
group-Verified host marker none pgid h = cc
group-Verified host marker (some pid) none h = cc
group-Verified host marker (some pid) (some pgid) h =
    let t = passed (leb_ℤ pid (pos 1) || not (pgid == pid)) _ _ h (λ q. cc) in
    let u = process-Verified host marker pid (host.inspect pid) t.1 in
    let n = neither _ _ t.0 in
    (
      ap some u.0,
      ap some (named n.1 ∙ u.0),
      subst (λ g. leb_ℤ g (pos 1) ≡ false) u.0 n.0,
      subst (λ g. ProcessVerified host marker g (host.inspect g)) u.0 u.1,
    )

boot-Verified :
    (host : Host) (marker : Marker) (boot : Option ℤ) {group : ℤ}
    → judge_boot host marker boot ≡ terminate group
    → (given : ℤ) × (boot ≡ some given)
      × (apart given host.boot_time ≡ false)
      × (judge_group host marker marker.pid marker.pgid ≡ terminate group)
boot-Verified host marker none h = cc
boot-Verified host marker (some boot) h =
    let p = passed (apart boot host.boot_time) _ _ h (λ q. cc) in (boot, refl, p.0, p.1)

pub judge-Verified :
    (host : Host) (request execution : String) (marker : Marker) (group : ℤ)
    → judge host request execution marker ≡ terminate group
    → Verified host request execution marker group
unfolding judge
judge-Verified host request execution marker group h =
    let p = passed (not (marker.request_sha256 == request)) _ _ h (λ q. cc) in
    let q = passed (not (marker.execution_sha256 == execution)) _ _ p.1 (λ q. cc) in
    let r = passed (not (marker.state == active)) _ _ q.1 (λ q. cc) in
    let s = passed (not (marker.hostname == host.hostname)) _ _ r.1 (λ q. cc) in
    let (boot, boot_given, same_boot, t) = boot-Verified host marker marker.boot_time s.1 in
    let (names, leads, above, (seen, inspected, created, created_given, since, same, command)) =
      group-Verified host marker marker.pid marker.pgid t in
    record {
      same_request = named p.0;
      same_execution = named q.0;
      is_active = named r.0;
      same_host = named s.0;
      boot = boot;
      boot_given = boot_given;
      same_boot = same_boot;
      names = names;
      leads = leads;
      above_init = above;
      seen = seen;
      inspected = inspected;
      created = created;
      created_given = created_given;
      same_process = since;
      same_group = same;
      same_command = command;
    }
