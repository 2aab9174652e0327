-- ===== src/Tests/Finalists.antt =====
-- A run whose finalist `_lock_shadow_finalist` of src/rex/control/production_supervisor.py locks.
use tiktok_techjam_recsys_ag.Prelude.{
  ℕ, ℕ_discrete, ◌+◌, ◌/◌, ◌≡◌, refl, inl, inr, true, none, some, List, [], ◌∷◌, length, ltb, ◌==◌,
  nat_eq, String, String-discrete, Option-discrete, string_eq, filter_by, dedup, arith, Bool-cases,
  if◌then◌else◌,
}
use tiktok_techjam_recsys_ag.Prelude.Texts.{sorted_set}
use tiktok_techjam_recsys_ag.Prelude.Table.{get, put}
use tiktok_techjam_recsys_ag.Contracts.{
  ExperimentState, discovery, ValidationPhase-discrete, ExperimentState-discrete,
}
use tiktok_techjam_recsys_ag.Store.Schema.{Run, Experiment, Artifact, ArtifactLink, Db}
use tiktok_techjam_recsys_ag.Store.Artifacts.{
  ArtifactRef, attempt_owner, owner_run, store_content, link_artifact, announce, provenance,
  register_artifact,
}
use tiktok_techjam_recsys_ag.Store.Finalist.{lock_validation_finalist}
use tiktok_techjam_recsys_ag.Store.Calls.{empty}
use tiktok_techjam_recsys_ag.Control.Supervisor.Finalist.{
  Reports, latest_full, insert_iteration, by_iteration, diagnosed_rows, full_mean, scored,
  strongest, score_of, lock_candidate, lock_shadow_finalist,
}
use tiktok_techjam_recsys_ag.Control.Supervisor.Finalist.Candidates.{IsRanked}
use tiktok_techjam_recsys_ag.Control.Supervisor.Finalist.Locked.{IsLocked}
use tiktok_techjam_recsys_ag.Control.Supervisor.Finalist.Strongest.{
  IsCandidate, IsChosen, lock_shadow_finalist-IsChosen,
}
use tiktok_techjam_recsys_ag.Tests.Histories.{env, abandoned_row, locked_run}

abbrev total : List ℕ → ℕ
total [] = 0
total (x ∷ xs) = x + total xs

abbrev lock_evidence : ArtifactRef
lock_evidence = record {
  artifact_id = "a3";
  kind = "validation_phase";
  path = "validation-phase-finalist-locked.json";
  sha256 = "h3";
  size_bytes = 9;
  schema_version = "rex.validation-phase.v1";
}

-- Scores are whole; the second file has the larger mean.
abbrev reports : Reports ℕ
reports = record {
  hash_of = λ path. some path;
  primaries = λ path. if path == "p2" then some (4 ∷ 6 ∷ []) else some (3 ∷ 3 ∷ []);
  publish = λ id score. some lock_evidence;
  average = λ xs. total xs / length xs;
  equal = λ a b. a == b;
  less = ltb;
}

reports-IsRanked : IsRanked reports
reports-IsRanked = record {
  asym = λ a b h. ground arith;
  between =
      λ a b c h. elim (Bool-cases (ltb a b)) [ inl yes' ↦ inl yes' | inr no' ↦ inr (ground arith) ];
  ties = λ a b h. (ground arith, ground arith);
}

abbrev candidate : ℕ → Experiment
candidate iteration = record abandoned_row {
  state = ExperimentState.diagnosed;
  iteration_number = iteration;
}

abbrev full_result : String → Artifact
full_result path = record {
  experiment_id = none;
  attempt_id = none;
  kind = "production_full_result";
  path = path;
  sha256 = path;
  size_bytes = 9;
  schema_version = "v";
  created_at = 1;
}

abbrev link_to : String → String → String → ArtifactLink
link_to artifact id path = record {
  artifact_id = artifact;
  experiment_id = some id;
  attempt_id = none;
  artifact_path = some path;
  created_at = 1;
}

abbrev searching : Run
searching = record locked_run { validation_phase = discovery; finalist_experiment_id = none }

abbrev searched : Db
unfolding empty
searched = record empty {
  runs = ("r1", searching) ∷ [];
  experiments = ("x1", candidate 1) ∷ ("x2", candidate 2) ∷ [];
  artifacts = ("a1", full_result "p1") ∷ ("a2", full_result "p2") ∷ [];
  artifact_links = ("l1", link_to "a1" "x1" "p1") ∷ ("l2", link_to "a2" "x2" "p2") ∷ [];
}

abbrev after_lock : Db
after_lock = (lock_shadow_finalist reports env "-" "r1" searched).0

searched-run : get "r1" searched.runs ≡ some searching
unfolding get String-discrete empty
searched-run = refl

key_free : get "r1:finalist-locked" searched.phase_transitions ≡ none
unfolding get empty
key_free = refl

locks : lock_shadow_finalist reports env "-" "r1" searched ≡ (after_lock, some true)
unfolding lock_shadow_finalist get empty String-discrete ValidationPhase-discrete scored
    diagnosed_rows by_iteration filter_by ExperimentState-discrete insert_iteration full_mean
    latest_full Option-discrete strongest score_of lock_candidate lock_validation_finalist
    sorted_set dedup put register_artifact attempt_owner owner_run store_content link_artifact
    announce provenance ℕ_discrete
locks = refl

lock_shadow_finalist-IsChosen_example :
    (id : String) × (score : ℕ) × IsCandidate reports "r1" searched id score
    × IsChosen reports "r1" searching searched id score
    × IsLocked "r1" id after_lock
lock_shadow_finalist-IsChosen_example =
    lock_shadow_finalist-IsChosen reports env "-" "r1" searched searching after_lock
      reports-IsRanked searched-run refl key_free locks
