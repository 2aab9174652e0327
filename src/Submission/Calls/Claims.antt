-- ===== src/Submission/Calls/Claims.antt =====
-- The claims of `authorize_handoff` of src/rex/submission/repository.py over a history of transactions.
use mathlib.Core.Path.{subst}
use tiktok_techjam_recsys_ag.Prelude.{
  ℕ, ◌≡◌, refl, sym, ap, ◌∙◌, inl, inr, Bool, true, false, not, ◌&&◌, Option, none, some, List, [],
  ◌∷◌, String, ◌==◌, string_eq, option_eq, any, if◌then◌else◌, Bool-cases, eq_of_==, ==_refl, arith,
}
use tiktok_techjam_recsys_ag.Prelude.Table.{
  Table, get, put, get-put, rows, Related, Related-refl, Related-put, Related-trans,
}
use tiktok_techjam_recsys_ag.Result.Ensures.{
  ensures_rules, Ensures-ok, Ensures-require, Ensures-if, Ensures-require_some,
}
use tiktok_techjam_recsys_ag.Submission.Schema.{Handoff, is_complete, SubmissionDb}
use tiktok_techjam_recsys_ag.Submission.Jobs.{Host}
use tiktok_techjam_recsys_ag.Submission.Handoffs.{claim_handoff, finish_handoff}
use tiktok_techjam_recsys_ag.Submission.Calls.{Transaction, commits, empty}
use tiktok_techjam_recsys_ag.Submission.Calls.Aside.{handoffs_keep}
use tiktok_techjam_recsys_ag.Submission.Calls.Replayed.{commits_induction}

-- A handoff keeps its seal and its target, and when it is complete it does not change at all.
abbrev pub KeptHandoff : Option Handoff → Option Handoff → Type 0
KeptHandoff none _ = Unit {0}
KeptHandoff (some h) none = ⊥
KeptHandoff (some h) (some h') =
    (h'.authorized_seal_sha256 ≡ h.authorized_seal_sha256)
    × (h'.target_path ≡ h.target_path)
    × (is_complete h.status ≡ true → h' ≡ h)

KeptHandoff-refl : (o : Option Handoff) → KeptHandoff o o
KeptHandoff-refl none = tt
KeptHandoff-refl (some h) = (refl, refl, λ _. refl)

KeptHandoff-trans :
    (o o' o'' : Option Handoff) → KeptHandoff o o' → KeptHandoff o' o'' → KeptHandoff o o''
KeptHandoff-trans none o' o'' h k = tt
KeptHandoff-trans (some h) none o'' p q = absurd p
KeptHandoff-trans (some h) (some h') none p q = absurd q
KeptHandoff-trans (some h) (some h') (some h'') p q =
    (q.0 ∙ p.0, q.1 ∙ p.1, λ done. q.2 (rw (p.2 done) done) ∙ p.2 done)

abbrev KeepsHandoffs : SubmissionDb → SubmissionDb → Type 0
KeepsHandoffs db db' = Related KeptHandoff db.submission_handoffs db'.submission_handoffs

KeepsHandoffs-refl :
    (db db' : SubmissionDb)
    → db'.submission_handoffs ≡ db.submission_handoffs
    → KeepsHandoffs db db'
KeepsHandoffs-refl db db' same =
    rw same (Related-refl KeptHandoff db.submission_handoffs KeptHandoff-refl)

KeepsHandoffs-trans :
    (db db' db'' : SubmissionDb)
    → KeepsHandoffs db db'
    → KeepsHandoffs db' db''
    → KeepsHandoffs db db''
KeepsHandoffs-trans db db' db'' h k =
    Related-trans KeptHandoff db.submission_handoffs db'.submission_handoffs
      db''.submission_handoffs KeptHandoff-trans h k

new-KeepsHandoffs :
    (id : String) (h : Handoff) (db : SubmissionDb)
    → get id db.submission_handoffs ≡ none
    → Related KeptHandoff db.submission_handoffs (put id h db.submission_handoffs)
new-KeepsHandoffs id h db absent =
    Related-put KeptHandoff id h db.submission_handoffs KeptHandoff-refl (rw absent tt)

finish-KeepsHandoffs :
    (id : String) (h h' : Handoff) (db : SubmissionDb)
    → get id db.submission_handoffs ≡ some h
    → h'.authorized_seal_sha256 ≡ h.authorized_seal_sha256
    → h'.target_path ≡ h.target_path
    → is_complete h.status ≡ false
    → Related KeptHandoff db.submission_handoffs (put id h' db.submission_handoffs)
finish-KeepsHandoffs id h h' db stored seal target going =
    Related-put KeptHandoff id h' db.submission_handoffs KeptHandoff-refl
      (rw stored (seal, target, λ done. cc))

kept_from :
    (db0 : SubmissionDb) (host : Host) (ts : List (ℕ × Transaction)) (db : SubmissionDb)
    → KeepsHandoffs db0 db
    → KeepsHandoffs db0 (commits host ts db)
unfolding claim_handoff finish_handoff
kept_from db0 host ts db h =
    commits_induction (KeepsHandoffs db0)
      (handoffs_keep (KeepsHandoffs db0)
        (λ db db' kept same. KeepsHandoffs-trans db0 db db' kept (KeepsHandoffs-refl db db' same))
        (λ host id seal target db kept.
          search (ensures_rules, KeepsHandoffs-trans db0 db, new-KeepsHandoffs) depth 12)
        (λ host id manifest db kept.
          search
            (
              Ensures-ok,
              Ensures-require,
              Ensures-if,
              Ensures-require_some,
              KeepsHandoffs-trans db0 db,
              finish-KeepsHandoffs,
            )
            depth 12))
      host ts db h

-- Transactions never withdraw a handoff and never change its seal or its target, and once it is
-- COMPLETE they change nothing of it.
pub commits-KeptHandoff :
    (host : Host) (ts : List (ℕ × Transaction)) (db : SubmissionDb) (id : String)
    → KeptHandoff (get id db.submission_handoffs) (get id (commits host ts db).submission_handoffs)
commits-KeptHandoff host ts db id = (kept_from db host ts db (KeepsHandoffs-refl db db refl)).at id

-- The target that a handoff claims.
abbrev pub target_of : Option Handoff → Option String
target_of none = none
target_of (some h) = some h.target_path

-- No two jobs claim one target.
pub record SoleTarget (t : Table String Handoff) : Type 0 where
  pub at :
      (i j target : String)
      → target_of (get i t) ≡ some target
      → target_of (get j t) ≡ some target
      → i ≡ j

target-split :
    (b : Bool) (h : Handoff) (o : Option Handoff)
    → target_of (if b then some h else o) ≡ (if b then some h.target_path else target_of o)
target-split true h o = refl
target-split false h o = refl

target-put :
    (id i : String) (h : Handoff) (t : Table String Handoff)
    → target_of (get i (put id h t)) ≡ (if id == i then some h.target_path else target_of (get i t))
target-put id i h t = ap target_of (get-put id i h t) ∙ target-split (id == i) h (get i t)

-- A job whose handoff claims a target is among the rows that the constraint looks at.
unclaimed :
    (i target : String) (t : Table String Handoff)
    → any (λ row. row.target_path == target) (rows t) ≡ false
    → target_of (get i t) ≡ some target
    → ⊥
unfolding get
unclaimed i target [] free h = cc
unclaimed i target ((k, row) ∷ t) free h = elim (Bool-cases (row.target_path == target)) [
  | inl same ↦ cc
  | inr other ↦ elim (Bool-cases (k == i)) [
    | inl here ↦
        let q : some row.target_path ≡ some target = rw here at h in
        let p : row.target_path ≡ target = cc in cc (==_refl target)
    | inr later ↦ unclaimed i target t (cc) (rw later at h)
  ]
]

new-SoleTarget :
    (id : String) (h : Handoff) (t : Table String Handoff)
    → SoleTarget t
    → any (λ row. row.target_path == h.target_path) (rows t) ≡ false
    → SoleTarget (put id h t)
new-SoleTarget id h t sole free = record {
  at = λ i j target hi hj. elim (Bool-cases (id == i)) [
    | inl this ↦ elim (Bool-cases (id == j)) [
      | inl also ↦ sym (eq_of_== this) ∙ eq_of_== also
      | inr other ↦ absurd (clash i j target this other hi hj)
    ]
    | inr other ↦ elim (Bool-cases (id == j)) [
      | inl this ↦ absurd (clash j i target this other hj hi)
      | inr apart ↦ sole.at i j target (stays i target other hi) (stays j target apart hj)
    ]
  ];
}
  where
    stays :
        (i target : String)
        → (id == i) ≡ false
        → target_of (get i (put id h t)) ≡ some target
        → target_of (get i t) ≡ some target
    stays i target other e = rw (target-put id i h t, other) at e

    clash :
        (i j target : String)
        → (id == i) ≡ true
        → (id == j) ≡ false
        → target_of (get i (put id h t)) ≡ some target
        → target_of (get j (put id h t)) ≡ some target
        → ⊥
    clash i j target this other hi hj =
        let q : some h.target_path ≡ some target = rw (target-put id i h t, this) at hi in
        let p : target ≡ h.target_path = cc in
        unclaimed j h.target_path t free (rw p at (stays j target other hj))

same-SoleTarget :
    (id : String) (h h' : Handoff) (t : Table String Handoff)
    → SoleTarget t
    → get id t ≡ some h
    → h'.target_path ≡ h.target_path
    → SoleTarget (put id h' t)
same-SoleTarget id h h' t sole stored same = record {
  at = λ i j target hi hj. sole.at i j target (before i ∙ hi) (before j ∙ hj);
}
  where
    before : (i : String) → target_of (get i t) ≡ target_of (get i (put id h' t))
    before i = rw (target-put id i h' t) (elim (Bool-cases (id == i)) [
      | inl this ↦
          let p : id ≡ i = eq_of_== this in
          let q : get i t ≡ some h = subst (λ k. get k t ≡ some h) p stored in
          rw (this, q, same) refl
      | inr other ↦ rw other refl
    ])

abbrev Sole : SubmissionDb → Type 0
Sole db = SoleTarget db.submission_handoffs

claimed_lem : (b c : Bool) → (b && not c) ≡ true → c ≡ false
claimed_lem b c h = ground arith

-- Whatever transactions were committed, no two jobs have a handoff to one target.
pub commits-SoleTarget :
    (host : Host) (ts : List (ℕ × Transaction))
    → SoleTarget (commits host ts empty).submission_handoffs
unfolding claim_handoff finish_handoff
commits-SoleTarget host ts =
    commits_induction Sole
      (handoffs_keep Sole (λ db db' sole same. rw same sole)
        (λ host id seal target db sole.
          search (ensures_rules, new-SoleTarget, claimed_lem) depth 12)
        (λ host id manifest db sole.
          search (Ensures-ok, Ensures-require, Ensures-if, Ensures-require_some, same-SoleTarget)
            depth 12))
      host ts empty (unfold get in record { at = λ i j target hi hj. cc })
