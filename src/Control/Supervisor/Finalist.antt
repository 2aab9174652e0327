-- ===== src/Control/Supervisor/Finalist.antt =====
-- src/rex/control/production_supervisor.py: `_lock_shadow_finalist`, with the queries of `_stored_rung`
-- and `_experiment_evidence`. The files that it reads and writes are a parameter.
pub mod Candidates
pub mod Locked
pub mod Strongest
use Prim.Native.String.{◌++◌ as join}
use tiktok_techjam_recsys_ag.Prelude.{
  ℕ, Bool, true, false, not, ◌&&◌, Option, none, some, List, [], ◌∷◌, String, ◌==◌, string_eq,
  option_eq, ltb, leb, length, map, filter_by, if◌then◌else◌,
}
use tiktok_techjam_recsys_ag.Prelude.Table.{Table, get, rows}
use tiktok_techjam_recsys_ag.Prelude.Texts.{text_ltb, sorted_set}
use tiktok_techjam_recsys_ag.Result.{Result, ok, err}
use tiktok_techjam_recsys_ag.Contracts.{
  discovery, finalist_locked, phase_eq, experiment_state_eq, diagnosed,
}
use tiktok_techjam_recsys_ag.Data.Arrays.{◌>>=◌}
use tiktok_techjam_recsys_ag.Store.Schema.{Run, Experiment, Artifact, ArtifactLink, Db}
use tiktok_techjam_recsys_ag.Store.Events.{Env}
use tiktok_techjam_recsys_ag.Store.Artifacts.{ArtifactRef, register_artifact}
use tiktok_techjam_recsys_ag.Store.Finalist.{lock_validation_finalist}

-- The files of the run and Python's floats: the hash of a file, if it is one; the value
-- `candidate.primary` of each observation of a result, if it can be read; the artifact that
-- `atomic_write_json` and `artifact_ref` leave for a finalist and its score; `sum(xs) / len(xs)`
-- of a list that is not empty; `==` and `<`.
pub record Reports (F : Type 0) : Type 0 where
  pub hash_of : String → Option String
  pub primaries : String → Option (List F)
  pub publish : String → F → Option ArtifactRef
  pub average : List F → F
  pub equal : F → F → Bool
  pub less : F → F → Bool

-- The rows of `artifact_links JOIN artifacts` for the full results of an experiment: the path of
-- the link, and the artifact.
abbrev joined : Db → ArtifactLink → List (Option String × Artifact)
joined db link = found (get link.artifact_id db.artifacts)
  where
    found : Option Artifact → List (Option String × Artifact)
    found none = []
    found (some artifact) =
        if artifact.kind == "production_full_result"
        then (link.artifact_path, artifact) ∷ []
        else []

-- ORDER BY artifact.created_at DESC LIMIT 1; of equally late rows the one stored first.
unfoldable pub latest_full : String → Db → List ArtifactLink → Option (Option String × Artifact)
latest_full id db [] = none
latest_full id db (link ∷ links) =
    later (if link.experiment_id == some id then joined db link else []) (latest_full id db links)
  where
    later :
        List (Option String × Artifact)
        → Option (Option String × Artifact)
        → Option (Option String × Artifact)
    later [] rest = rest
    later (row ∷ _) none = some row
    later (row ∷ _) (some other) =
        if ltb row.1.created_at other.1.created_at then some other else some row

-- `run["shadow_champion_experiment_id"] or ""`
abbrev pub champion : Run → String
champion run = text run.shadow_champion_experiment_id
  where
    text : Option String → String
    text none = ""
    text (some id) = id

unfoldable pub insert_iteration :
    String × Experiment → List (String × Experiment) → List (String × Experiment)
insert_iteration row [] = row ∷ []
insert_iteration row (other ∷ rest) =
    if leb row.1.iteration_number other.1.iteration_number
    then row ∷ other ∷ rest
    else other ∷ insert_iteration row rest

unfoldable pub by_iteration : List (String × Experiment) → List (String × Experiment)
by_iteration [] = []
by_iteration (row ∷ rest) = insert_iteration row (by_iteration rest)

-- The experiments of a run in DIAGNOSED, ORDER BY iteration_number
unfoldable pub diagnosed_rows : String → Db → List (String × Experiment)
diagnosed_rows run_id db =
    by_iteration
      (filter_by (λ row. row.1.run_id == run_id && row.1.state == diagnosed) db.experiments)

-- `_experiment_evidence`
abbrev pub experiment_evidence : String → Db → List String
experiment_evidence id db = sorted_set (
    map (λ link. link.artifact_id)
      (filter_by (λ link. link.experiment_id == some id) (rows db.artifact_links)))

module _ {F : Type 0} (reports : Reports F) where
  -- The mean of the primaries of the stored full result: `none` where the code raises, and
  -- `some none` where nothing is stored.
  unfoldable pub full_mean : String → Db → Option (Option F)
  full_mean id db = stored (latest_full id db (rows db.artifact_links))
    where
      mean : List F → Option (Option F)
      mean [] = none
      mean (x ∷ xs) = some (some (reports.average (x ∷ xs)))

      stored : Option (Option String × Artifact) → Option (Option F)
      stored none = some none
      stored (some (none, artifact)) = none
      stored (some (some path, artifact)) =
          if reports.hash_of path == some artifact.sha256
          then (reports.primaries path >>= mean)
          else none

  abbrev with_score : Option F → String → List (F × String) → List (F × String)
  with_score none id rest = rest
  with_score (some score) id rest = (score, id) ∷ rest

  unfoldable pub scored : Db → List (String × Experiment) → Option (List (F × String))
  scored db [] = some []
  scored db ((id, _) ∷ candidates) =
      full_mean id db >>= λ score. scored db candidates >>= λ rest. some (with_score score id rest)

  -- `>` on the keys (score, id)
  abbrev pub ranks_above : F × String → F × String → Bool
  ranks_above c best =
      if reports.equal c.0 best.0 then text_ltb best.1 c.1 else reports.less best.0 c.0

  -- `max(candidates, key=…)`: the first of the largest.
  unfoldable pub strongest : F × String → List (F × String) → F × String
  strongest best [] = best
  strongest best (c ∷ candidates) = strongest (if ranks_above c best then c else best) candidates

  -- `by_id[id]`, if it is there. An experiment is a candidate once, since its id is a primary key.
  unfoldable pub score_of : String → List (F × String) → Option F
  score_of id [] = none
  score_of id ((score, other) ∷ candidates) =
      if other == id then some score else score_of id candidates

  -- The finalist and its score; there is at least one candidate.
  abbrev pub chosen : String → F × String → List (F × String) → F × String
  chosen durable c candidates = choice (score_of durable (c ∷ candidates))
    where
      choice : Option F → F × String
      choice none = strongest c candidates
      choice (some score) = (score, durable)

  -- Each answer is `none` where the code raises; the tables are as the call leaves them.
  abbrev registered : Env → String → F × String → Db → Db × Option Bool
  registered env separator finalist db = announced (
      reports.publish finalist.1 finalist.0 >>= λ ref.
      returned (register_artifact env separator ref (some finalist.1) none db))
    where
      returned : Result (String × Db) → Option Db
      returned (err _) = none
      returned (ok (_, db')) = some db'

      announced : Option Db → Db × Option Bool
      announced none = (db, none)
      announced (some db') = (db', some true)

  unfoldable pub lock_candidate : Env → String → String → F × String → Db → Db × Option Bool
  lock_candidate env separator run_id finalist db = locked (
      lock_validation_finalist env run_id finalist.1 (experiment_evidence finalist.1 db)
        (join run_id ":finalist-locked") db)
    where
      locked : Result (Bool × Db) → Db × Option Bool
      locked (err _) = (db, none)
      locked (ok (_, db')) = registered env separator finalist db'

  abbrev pub lock_first :
      Env → String → String → Run → Db → Option (List (F × String)) → Db × Option Bool
  lock_first env separator run_id run db none = (db, none)
  lock_first env separator run_id run db (some []) = (db, some false)
  lock_first env separator run_id run db (some (c ∷ candidates)) =
      lock_candidate env separator run_id (chosen (champion run) c candidates) db

  unfoldable pub lock_shadow_finalist : Env → String → String → Db → Db × Option Bool
  lock_shadow_finalist env separator run_id db = of_run (get run_id db.runs)
    where
      of_run : Option Run → Db × Option Bool
      of_run none = (db, none)
      of_run (some run) =
          if not (run.validation_phase == discovery)
          then (db, some (run.validation_phase == finalist_locked))
          else lock_first env separator run_id run db (scored db (diagnosed_rows run_id db))
