-- ===== src/Execution/Leases/Begin/Watched.antt =====
-- The loop of `begin_worker_lease` in src/rex/execution/lease.py sees a worker complete exec.
use tiktok_techjam_recsys_ag.Prelude.{
  ℕ, zero, suc, ◌+◌, ◌≡◌, ◌≤◌, ◌<◌, refl, ap, ◌∙◌, inl, inr, true, false, Option, none, some, List,
  String, ◌==◌, string_eq, nat_eq, contains, Bool-cases, eq_of_==, ==_refl, arith,
}
use tiktok_techjam_recsys_ag.Prelude.Int.{ℤ, int_eq}
use tiktok_techjam_recsys_ag.Execution.Leases.{Identity}
use tiktok_techjam_recsys_ag.Execution.Leases.Begin.{
  Launch, is_stable, pass, watch, active_marker, begin_worker_lease,
}

-- A sighting of a worker that has not completed exec: none, or without the token.
abbrev pub IsEarly : String → Option (Identity × List String) → Type 0
IsEarly token none = Unit
IsEarly token (some (seen, given)) = contains token given ≡ false

-- The worker runs, and its token is seen for the first time at the n-th pass; it is seen again, as the same
-- process, at the next one, before the 50 passes are over.
pub record Starts (launch : Launch) (token : String) (n : ℕ) (seen : Identity) (given : List String)
    : Type 0 where
  pub found : launch.is_found ≡ true
  pub in_time : n + 1 < 50
  pub early : (k : ℕ) → k < n → IsEarly token (launch.sighting k)
  pub runs : (k : ℕ) → k < n → launch.is_running k ≡ true
  pub first : launch.sighting n ≡ some (seen, given)
  pub second : launch.sighting (suc n) ≡ some (seen, given)
  pub has : contains token given ≡ true

module _ (launch : Launch) (token : String) (n : ℕ) (seen : Identity) (given : List String)
    (starts : Starts launch token n seen given) where
  pass_early :
      (prior : Option Identity) (again : Option Identity → Option Identity)
      (sighting : Option (Identity × List String))
      → IsEarly token sighting
      → pass (some token) true prior again sighting ≡ again prior
  pass_early prior again none early = refl
  pass_early prior again (some (other, line)) early = rw early refl

  again_seen :
      (passes : ℕ) → 0 < passes → watch launch (some token) (suc n) passes (some seen) ≡ some seen
  unfolding watch
  again_seen zero h = absurd (omega arith)
  again_seen (suc passes) h =
      rw
        (
          starts.second,
          starts.has,
          ==_refl seen.pgid,
          ==_refl seen.create_time,
          ==_refl seen.executable,
        )
        refl

  watch-seen :
      (m passes : ℕ) (prior : Option Identity)
      → m ≤ n
      → suc n < m + passes
      → watch launch (some token) m passes prior ≡ some seen
  unfolding watch
  watch-seen m zero prior below room = absurd (omega arith)
  watch-seen m (suc passes) prior below room = elim (Bool-cases (m == n)) [
    | inl here ↦
        let at_n : m ≡ n = eq_of_== here in
        rw (at_n, starts.first, starts.has)
          (elim (Bool-cases (is_stable (some token) seen prior)) [
            | inl stable ↦ rw stable refl
            | inr moved ↦ rw moved (again_seen passes (omega (arith, at_n)))
          ])
    | inr before ↦
        let next : m < n = ground arith in
        ap
          (λ r.
            pass (some token) r prior (λ q. watch launch (some token) (suc m) passes q)
              (launch.sighting m))
          (starts.runs m next)
        ∙ pass_early prior (λ q. watch launch (some token) (suc m) passes q) (launch.sighting m)
            (starts.early m next)
        ∙ watch-seen (suc m) passes prior (omega (arith, next)) (omega arith)
  ]

  -- The lease is written for the process that was seen.
  pub begin-Starts :
      (pid : ℤ) (request execution : String)
      → seen.pgid ≡ pid
      → begin_worker_lease launch pid request execution (some token)
        ≡ some (active_marker launch pid request execution (some token) seen)
  unfolding begin_worker_lease
  begin-Starts pid request execution leads =
      let room : suc n < 0 + 50 = omega (arith, starts.in_time) in
      rw (watch-seen 0 50 none (omega arith) room, starts.found, leads, ==_refl pid) refl
