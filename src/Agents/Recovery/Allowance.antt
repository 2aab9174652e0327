-- ===== src/Agents/Recovery/Allowance.antt =====
-- The experiment-wide allowance: how many repairs a sequence of failures is charged.
use Prim.Native.Nat.{min}
use tiktok_techjam_recsys_ag.Prelude.{
  ℕ, suc, ◌+◌, ◌≤◌, ◌≡◌, inl, inr, Bool, true, false, List, [], ◌∷◌, String, arith, if◌then◌else◌,
  Bool-cases,
}
use tiktok_techjam_recsys_ag.Contracts.{
  AttemptStatus, success, crash, interrupted, AttemptStatus-discrete,
}
use tiktok_techjam_recsys_ag.Agents.Recovery.{plan_repair}

-- The repairs charged after a sequence of failures, when the number that each plan returns is the
-- number already used of the next.
unfoldable pub repairs_after : ℕ → ℕ → List (AttemptStatus × String) → ℕ
repairs_after maximum used [] = used
repairs_after maximum used ((status, phase) ∷ rest) =
    repairs_after maximum (plan_repair status used phase maximum).repair_number rest

-- The failures that a repair is charged for: all but an interruption, a crash and a success.
abbrev pub is_charged : AttemptStatus → Bool
is_charged success = false
is_charged crash = false
is_charged interrupted = false
is_charged _ = true

abbrev pub count_charged : List (AttemptStatus × String) → ℕ
count_charged [] = 0
count_charged ((status, _) ∷ rest) =
    if is_charged status then suc (count_charged rest) else count_charged rest

plan_number :
    (status : AttemptStatus) (used : ℕ) (phase : String) (maximum : ℕ)
    → used ≤ maximum
    → (plan_repair status used phase maximum).repair_number
      ≡ (if is_charged status then min maximum (used + 1) else used)
unfolding plan_repair AttemptStatus-discrete
plan_number success used phase maximum h = ground arith
plan_number _ used phase maximum h = ground arith

-- Starting within the limit, a sequence of failures is charged exactly one repair for each failure
-- that is neither an interruption nor a crash (nor a success), and never more than the limit.
pub repairs_after_lem :
    (maximum used : ℕ) (failures : List (AttemptStatus × String))
    → used ≤ maximum
    → repairs_after maximum used failures ≡ min maximum (used + count_charged failures)
unfolding repairs_after
repairs_after_lem maximum used [] h = omega arith
repairs_after_lem maximum used ((status, phase) ∷ rest) h = elim (Bool-cases (is_charged status)) [
  | inl e ↦
      rw (plan_number status used phase maximum h, e)
        (omega (arith, repairs_after_lem maximum (min maximum (used + 1)) rest (omega arith)))
  | inr e ↦
      rw (plan_number status used phase maximum h, e)
        (omega (arith, repairs_after_lem maximum used rest h))
]
