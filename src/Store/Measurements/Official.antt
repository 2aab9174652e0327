-- ===== src/Store/Measurements/Official.antt =====
-- When `record_metrics` of src/rex/store/repository.py admits an official evaluation.
use tiktok_techjam_recsys_ag.Prelude.{
  ℕ, ◌≡◌, ◌<◌, refl, Bool, true, false, not, ◌&&◌, Option, none, some, String, ◌==◌, string_eq,
  option_eq, leb, arith, eq_of_==, ==_refl,
}
use tiktok_techjam_recsys_ag.Prelude.Table.{get}
use tiktok_techjam_recsys_ag.Result.{ok}
use tiktok_techjam_recsys_ag.Result.Ensures.{Ensures, Ensures-ok, Ensures-require}
use tiktok_techjam_recsys_ag.Contracts.{finalist_locked, phase_eq}
use tiktok_techjam_recsys_ag.Store.Schema.{Run, Experiment, metric_key_eq, Db}
use tiktok_techjam_recsys_ag.Store.Events.{Env}
use tiktok_techjam_recsys_ag.Store.Runs.{Metrics}
use tiktok_techjam_recsys_ag.Store.Measurements.{key_of, may_validate, record_metrics}

-- The run is locked on this finalist, and has official evaluations left.
unfoldable pub Admits : String → ℕ → Run → Type 0
Admits e limit r =
    (r.validation_phase ≡ finalist_locked)
    × (r.finalist_experiment_id ≡ some e)
    × (r.official_evaluation_count < limit)

both_sides : (a b : Bool) → (a && b) ≡ true → (a ≡ true) × (b ≡ true)
both_sides true b h = (refl, h)
both_sides false b h = cc

Admits-guards :
    (e : String) (limit : ℕ) (kind : Option String) (r : Run)
    → not (leb limit r.official_evaluation_count) ≡ true
    → may_validate e kind r ≡ true
    → kind ≡ some "production_search"
    → Admits e limit r
unfolding Admits
Admits-guards e limit kind r room lock k =
    let locked : (r.validation_phase == finalist_locked && r.finalist_experiment_id == some e)
        ≡ true =
      ground arith in
    let both =
      both_sides (r.validation_phase == finalist_locked) (r.finalist_experiment_id == some e)
        locked in
    (eq_of_== both.0, eq_of_== both.1, ground arith)

Ensures-Admits :
    (env : Env) (e : String) (m : Metrics) (attempt : Option String) (limit : ℕ) (db : Db)
    (x : Experiment) (r : Run)
    → get e db.experiments ≡ some x
    → get x.run_id db.runs ≡ some r
    → x.experiment_kind ≡ some "production_search"
    → (m.split == "valid") ≡ true
    → get (key_of e m) db.metrics ≡ none
    → Ensures (λ _. Admits e limit r) (record_metrics env e m attempt limit db)
unfolding record_metrics
Ensures-Admits env e m attempt limit db x r hx hr kind split fresh =
    rw (hx, hr, fresh, split)
      (search (Ensures-require, Ensures-ok, Admits-guards e limit x.experiment_kind r) depth 10)

-- If `record_metrics` succeeds on the official split for a production candidate whose metrics are
-- not stored yet, then its run is FINALIST_LOCKED, the candidate is the finalist, and the run had
-- used fewer official evaluations than the limit.
pub record_metrics-Admits :
    (env : Env) (e : String) (m : Metrics) (attempt : Option String) (limit : ℕ) (db db' : Db)
    (x : Experiment) (r : Run)
    → get e db.experiments ≡ some x
    → get x.run_id db.runs ≡ some r
    → x.experiment_kind ≡ some "production_search"
    → m.split ≡ "valid"
    → get (key_of e m) db.metrics ≡ none
    → record_metrics env e m attempt limit db ≡ ok db'
    → Admits e limit r
record_metrics-Admits env e m attempt limit db db' x r hx hr kind split fresh h =
    let official : (m.split == "valid") ≡ true = rw split (==_refl {A = String} "valid") in
    (Ensures-Admits env e m attempt limit db x r hx hr kind official fresh).at db' h
