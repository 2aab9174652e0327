-- ===== src/Submission/Calls/Aside.antt =====
-- The transactions of src/rex/submission/repository.py that leave the handoffs alone.
use tiktok_techjam_recsys_ag.Prelude.{◌≡◌, refl, ◌∙◌, Option, List, String, string_eq, option_eq}
use tiktok_techjam_recsys_ag.Result.{Result, ok, ◌>>=◌}
use tiktok_techjam_recsys_ag.Result.Ensures.{
  Ensures, ensures_rules, Ensures-ok, Ensures-require, Ensures-if, Ensures-require_some,
  Ensures-bind, Ensures-on_row,
}
use tiktok_techjam_recsys_ag.Store.Documents.{Fields}
use tiktok_techjam_recsys_ag.Submission.States.{SubmissionState}
use tiktok_techjam_recsys_ag.Submission.Schema.{SourceLocator, Job, Transition, SubmissionDb}
use tiktok_techjam_recsys_ag.Submission.Jobs.{
  Host, insert_transition, get_job, create_job, transition, terminate,
}
use tiktok_techjam_recsys_ag.Submission.Checks.{record_check}
use tiktok_techjam_recsys_ag.Submission.Handoffs.{claim_handoff, finish_handoff}
use tiktok_techjam_recsys_ag.Submission.Calls.{Transaction, run}

-- The calls on jobs leave the handoffs alone.
abbrev pub Aside : SubmissionDb → SubmissionDb × Job → Type 0
Aside db moved = moved.0.submission_handoffs ≡ db.submission_handoffs

insert_aside :
    (row : Transition) (db : SubmissionDb)
    → Ensures (λ db'. db'.submission_handoffs ≡ db.submission_handoffs) (insert_transition row db)
unfolding insert_transition
insert_aside row db = search (Ensures-ok, Ensures-require)

read-Aside :
    (id : String) (db db' : SubmissionDb)
    → db'.submission_handoffs ≡ db.submission_handoffs
    → Ensures (Aside db) (get_job id db' >>= λ stored. ok (db', stored))
read-Aside id db db' same =
    Ensures-bind (get_job id db') _ (λ stored _. Ensures-ok (db', stored) same)

entry-Aside :
    (id : String) (row : Transition) (db db' : SubmissionDb)
    → db'.submission_handoffs ≡ db.submission_handoffs
    → Ensures
        (Aside db)
        (insert_transition row db' >>= λ d. get_job id d >>= λ stored. ok (d, stored))
entry-Aside id row db db' same =
    Ensures-bind (insert_transition row db') _
      (λ d done. read-Aside id db d ((insert_aside row db').at d done ∙ same))

ruleset aside_rules = (
  Ensures-ok, Ensures-require, Ensures-if, Ensures-require_some, Ensures-on_row, read-Aside,
  entry-Aside, refl,
)

create_job-Aside :
    (host : Host) (source : SourceLocator) (db : SubmissionDb)
    → Ensures (Aside db) (create_job host source db)
unfolding create_job
create_job-Aside host source db = search aside_rules depth 12

pub transition-Aside :
    (host : Host) (id : String) (expected target : SubmissionState) (evidence : Fields)
    (updates : List (String × Option String)) (db : SubmissionDb)
    → Ensures (Aside db) (transition host id expected target evidence updates db)
unfolding transition
transition-Aside host id expected target evidence updates db = search aside_rules depth 12

terminate-Aside :
    (host : Host) (id : String) (target : SubmissionState) (code summary : String)
    (db : SubmissionDb)
    → Ensures (Aside db) (terminate host id target code summary db)
unfolding terminate
terminate-Aside host id target code summary db = search aside_rules depth 12

module _ (P : SubmissionDb → Type 0)
    (same : (db db' : SubmissionDb)
      → P db
      → db'.submission_handoffs ≡ db.submission_handoffs
      → P db')
    (claimed : (host : Host) (id seal target : String) (db : SubmissionDb)
      → P db
      → Ensures P (claim_handoff host id seal target db))
    (finished : (host : Host) (id manifest : String) (db : SubmissionDb)
      → P db
      → Ensures P (finish_handoff host id manifest db)) where
  Aside-keeps :
      (db : SubmissionDb) (m : Result (SubmissionDb × Job))
      → P db
      → Ensures (Aside db) m
      → Ensures P (m >>= λ moved. ok moved.0)
  Aside-keeps db m h quiet =
      Ensures-bind m _ (λ moved done. Ensures-ok moved.0 (same db moved.0 h (quiet.at moved done)))

  -- What the two transactions on handoffs keep, every transaction keeps.
  pub handoffs_keep :
      (host : Host) (t : Transaction) (db : SubmissionDb) → P db → Ensures P (run host t db)
  unfolding run record_check
  handoffs_keep host (Transaction.creation source) db h =
      Aside-keeps db _ h (create_job-Aside host source db)
  handoffs_keep host (Transaction.move id expected target evidence updates) db h =
      Aside-keeps db _ h (transition-Aside host id expected target evidence updates db)
  handoffs_keep host (Transaction.termination id target code summary) db h =
      Aside-keeps db _ h (terminate-Aside host id target code summary db)
  handoffs_keep host (Transaction.check id ordinal checked) db h =
      search (ensures_rules, same) depth 12
  handoffs_keep host (Transaction.claim id seal target) db h = claimed host id seal target db h
  handoffs_keep host (Transaction.finish id manifest) db h = finished host id manifest db h
