-- ===== src/Control/Supervisor/Finalist/Strongest.antt =====
-- Which finalist `_lock_shadow_finalist` of src/rex/control/production_supervisor.py locks.
use Prim.Native.String.{◌++◌ as join}
use mathlib.Core.List.{Memᴰ}
use tiktok_techjam_recsys_ag.Prelude.{
  ◌≡◌, refl, sym, ap, ◌∙◌, ◌⊎◌, inl, inr, true, false, none, some, List, [], ◌∷◌, String, string_eq,
  option_eq, nat_eq, Option-cases, ==_refl,
}
use tiktok_techjam_recsys_ag.Prelude.Table.{get}
use tiktok_techjam_recsys_ag.Result.{Result, ok, err}
use tiktok_techjam_recsys_ag.Contracts.{discovery, phase_eq, experiment_state_eq}
use tiktok_techjam_recsys_ag.Store.Schema.{Run, Db}
use tiktok_techjam_recsys_ag.Store.Events.{Env}
use tiktok_techjam_recsys_ag.Store.Artifacts.{register_artifact}
use tiktok_techjam_recsys_ag.Store.Finalist.{lock_validation_finalist}
use tiktok_techjam_recsys_ag.Control.Supervisor.Finalist.{
  Reports, champion, diagnosed_rows, experiment_evidence, full_mean, scored, strongest, score_of,
  chosen, registered, lock_candidate, lock_first, lock_shadow_finalist,
}
use tiktok_techjam_recsys_ag.Control.Supervisor.Finalist.Candidates.{
  IsRanked, strongest-max, strongest-Mem, score_of-Mem, score_of-none, scored-mean, scored-Mem,
}
use tiktok_techjam_recsys_ag.Control.Supervisor.Finalist.Locked.{
  IsDiagnosed, IsLocked, diagnosed-Mem, lock-Locks, register-runs,
}

-- An experiment of the run that may become its finalist, with its score.
abbrev pub IsCandidate : {F : Type 0} → Reports F → String → Db → String → F → Type 0
IsCandidate reports run_id db id score =
    IsDiagnosed run_id id db × (full_mean reports id db ≡ some (some score))

-- The durable champion; or, where that is no candidate, one that no candidate has a larger score than.
abbrev pub IsChosen : {F : Type 0} → Reports F → String → Run → Db → String → F → Type 0
IsChosen {F} reports run_id run db id score =
    (id ≡ champion run)
    ⊎ (((s : F) → IsCandidate reports run_id db (champion run) s → ⊥)
        × ((i : String) (s : F) → IsCandidate reports run_id db i s → reports.less score s ≡ false))

Result-cases : {A : Type 0} (r : Result A) → ((e : _) × (r ≡ err e)) ⊎ ((a : A) × (r ≡ ok a))
Result-cases (err e) = inl (e, refl)
Result-cases (ok a) = inr (a, refl)

module _ {F : Type 0} (reports : Reports F) (env : Env) (separator run_id : String) (db : Db) where
  candidate-Mem :
      {cs : List (F × String)} (id : String) (s : F)
      → scored reports db (diagnosed_rows run_id db) ≡ some cs
      → IsCandidate reports run_id db id s
      → Memᴰ (s, id) cs
  candidate-Mem id s read (d, mean) =
      scored-Mem reports db (diagnosed_rows run_id db) id d.0 s read mean
        (diagnosed-Mem run_id id db d)

  chosen-IsChosen :
      (run : Run) (c : F × String) (cs : List (F × String))
      → IsRanked reports
      → scored reports db (diagnosed_rows run_id db) ≡ some (c ∷ cs)
      → let f = chosen reports (champion run) c cs in
        (full_mean reports f.1 db ≡ some (some f.0)) × IsChosen reports run_id run db f.1 f.0
  chosen-IsChosen run c cs laws read =
      elim (Option-cases (score_of reports (champion run) (c ∷ cs))) [
        | inl absent ↦ rw absent (
          scored-mean reports db _ (strongest reports c cs) read (strongest-Mem reports c cs),
          inr (
            λ s d.
                score_of-none reports (champion run) (c ∷ cs) s absent
                  (candidate-Mem (champion run) s read d),
            λ i s d. strongest-max reports laws c cs (s, i) (candidate-Mem i s read d),
          ),
        )
        | inr (score, present) ↦ rw present (
          scored-mean reports db _ (score, champion run) read
              (score_of-Mem reports (champion run) (c ∷ cs) present),
          inl refl,
        )
      ]

  registered-runs :
      (finalist : F × String) (db1 db' : Db)
      → registered reports env separator finalist db1 ≡ (db', some true)
      → db'.runs ≡ db1.runs
  registered-runs finalist db1 db' h = elim (Option-cases (reports.publish finalist.1 finalist.0)) [
    | inl fails ↦ let q : (db1, none) ≡ (db', some true) = rw fails at h in cc
    | inr (ref, made) ↦
        elim (Result-cases (register_artifact env separator ref (some finalist.1) none db1)) [
          | inl (e, raised) ↦ let q : (db1, none) ≡ (db', some true) = rw (made, raised) at h in cc
          | inr ((link, db2), done) ↦
              let q : (db2, some true) ≡ (db', some true) = rw (made, done) at h in
              ap (λ p. p.0.runs) (sym q)
              ∙ (register-runs env separator ref (some finalist.1) none db1).at (link, db2) done
        ]
  ]

  candidate-IsLocked :
      (finalist : F × String) (db' : Db)
      → get (join run_id ":finalist-locked") db.phase_transitions ≡ none
      → lock_candidate reports env separator run_id finalist db ≡ (db', some true)
      → IsDiagnosed run_id finalist.1 db × IsLocked run_id finalist.1 db'
  unfolding lock_candidate
  candidate-IsLocked finalist db' free h =
      let lock =
        lock_validation_finalist env run_id finalist.1 (experiment_evidence finalist.1 db)
          (join run_id ":finalist-locked") db in
      elim (Result-cases lock) [
        | inl (e, raised) ↦ let q : (db, none) ≡ (db', some true) = rw raised at h in cc
        | inr ((again, db1), done) ↦
            let locks = (lock-Locks env run_id finalist.1 _ _ db free).at (again, db1) done in
            let (run, stored, phase, own) = locks.row in
            let q = registered-runs finalist db1 db' (rw done at h) in
            (locks.finalist, (run, ap (get run_id) q ∙ stored, phase, own))
      ]

  -- For a run in DISCOVERY whose lock key is free, with scores in the order of floats that are not
  -- NaN: when _lock_shadow_finalist returns True, the run is in FINALIST_LOCKED, and its finalist
  -- was one of its experiments in DIAGNOSED with a stored full result: the durable shadow champion,
  -- or, where that is no such experiment, one whose mean no such experiment exceeds.
  pub lock_shadow_finalist-IsChosen :
      (run : Run) (db' : Db)
      → IsRanked reports
      → get run_id db.runs ≡ some run
      → run.validation_phase ≡ discovery
      → get (join run_id ":finalist-locked") db.phase_transitions ≡ none
      → lock_shadow_finalist reports env separator run_id db ≡ (db', some true)
      → (id : String) × (score : F) × IsCandidate reports run_id db id score
        × IsChosen reports run_id run db id score
        × IsLocked run_id id db'
  unfolding lock_shadow_finalist
  lock_shadow_finalist-IsChosen run db' laws stored phase free h =
      let h' : lock_first reports env separator run_id run db
            (scored reports db (diagnosed_rows run_id db))
          ≡ (db', some true) =
        rw (stored, phase, ==_refl discovery) at h in
      elim (Option-cases (scored reports db (diagnosed_rows run_id db))) [
        | inl fails ↦ let q : (db, none) ≡ (db', some true) = rw fails at h' in cc
        | inr ([], read) ↦ let q : (db, some false) ≡ (db', some true) = rw read at h' in cc
        | inr (c ∷ cs, read) ↦
            let f = chosen reports (champion run) c cs in
            let (d, locked) = candidate-IsLocked f db' free (rw read at h') in
            let (mean, choice) = chosen-IsChosen run c cs laws read in
            (f.1, f.0, (d, mean), choice, locked)
      ]
