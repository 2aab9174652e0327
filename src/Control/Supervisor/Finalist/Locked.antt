-- ===== src/Control/Supervisor/Finalist/Locked.antt =====
-- What `_lock_shadow_finalist` of src/rex/control/production_supervisor.py leaves in the tables.
use mathlib.Core.List.{Memᴰ}
use mathlib.Core.List.Memᴰ.{head, tail}
use mathlib.Core.Option.{some-injective}
use mathlib.Core.Path.{subst}
use tiktok_techjam_recsys_ag.Prelude.{
  ◌≡◌, refl, sym, ap, ◌∙◌, inl, inr, Bool, true, ◌&&◌, Option, none, some, List, [], ◌∷◌, String,
  ◌==◌, string_eq, option_eq, nat_eq, leb, filter_by, Bool-cases, Option-cases, eq_of_==, ==_refl,
  if◌then◌else◌,
}
use tiktok_techjam_recsys_ag.Prelude.Table.{Table, get, put, get-put_self}
use tiktok_techjam_recsys_ag.Result.Ensures.{
  Ensures, ensures_rules, Ensures-ok, Ensures-require, Ensures-require_some, Ensures-bind,
}
use tiktok_techjam_recsys_ag.Contracts.{finalist_locked, phase_eq, experiment_state_eq, diagnosed}
use tiktok_techjam_recsys_ag.Store.Schema.{Run, Experiment, Db}
use tiktok_techjam_recsys_ag.Store.Events.{Env}
use tiktok_techjam_recsys_ag.Store.Artifacts.{
  ArtifactRef, attempt_owner, owner_run, store_content, link_artifact, announce, register_artifact,
}
use tiktok_techjam_recsys_ag.Store.Finalist.{of_run, lock_validation_finalist}
use tiktok_techjam_recsys_ag.Control.Supervisor.Finalist.{
  insert_iteration, by_iteration, diagnosed_rows,
}

-- A stored experiment of the run in DIAGNOSED.
abbrev pub IsDiagnosed : String → String → Db → Type 0
IsDiagnosed run_id id db =
    (e : Experiment) × (get id db.experiments ≡ some e)
    × (e.run_id ≡ run_id)
    × (e.state ≡ diagnosed)

-- The run is in FINALIST_LOCKED, with this finalist.
abbrev pub IsLocked : String → String → Db → Type 0
IsLocked run_id id db =
    (run : Run) × (get run_id db.runs ≡ some run)
    × (run.validation_phase ≡ finalist_locked)
    × (run.finalist_experiment_id ≡ some id)

get-Mem :
    {V : Type 0} (id : String) (t : Table String V) {v : V} → get id t ≡ some v → Memᴰ (id, v) t
unfolding get
get-Mem id [] h = cc
get-Mem id ((k, w) ∷ t) {v} h = elim (Bool-cases (k == id)) [
  | inl here ↦
      let q : some w ≡ some v = rw here at h in
      head (ap (λ u. (id, u)) (sym (some-injective _ _ q)) ∙ ap (λ j. (j, w)) (sym (eq_of_== here)))
  | inr later ↦ tail (get-Mem id t (rw later at h))
]

filter-Mem :
    {A : Type 0} (p : A → Bool) (x : A) (xs : List A)
    → Memᴰ x xs
    → p x ≡ true
    → Memᴰ x (filter_by p xs)
unfolding filter_by
filter-Mem p x [] m h = elim m [ ]
filter-Mem p x (y ∷ xs) (head e) h = rw (sym (ap p e) ∙ h) (head e)
filter-Mem p x (y ∷ xs) (tail m) h = elim (Bool-cases (p y)) [
  | inl yes' ↦ rw yes' (tail (filter-Mem p x xs m h))
  | inr no' ↦ rw no' (filter-Mem p x xs m h)
]

insert-Mem :
    (x row : String × Experiment) (rs : List (String × Experiment))
    → Memᴰ x (row ∷ rs)
    → Memᴰ x (insert_iteration row rs)
unfolding insert_iteration
insert-Mem x row [] m = m
insert-Mem x row (other ∷ rs) m =
    elim (Bool-cases (leb row.1.iteration_number other.1.iteration_number)) [
      | inl here ↦ rw here m
      | inr later ↦ rw later (below (insert-Mem x row rs) m)
    ]
  where
    below :
        (Memᴰ x (row ∷ rs) → Memᴰ x (insert_iteration row rs))
        → Memᴰ x (row ∷ other ∷ rs)
        → Memᴰ x (other ∷ insert_iteration row rs)
    below rest (head e) = tail (rest (head e))
    below rest (tail (head e)) = head e
    below rest (tail (tail n)) = tail (rest (tail n))

by_iteration-Mem :
    (x : String × Experiment) (rs : List (String × Experiment))
    → Memᴰ x rs
    → Memᴰ x (by_iteration rs)
unfolding by_iteration
by_iteration-Mem x [] m = m
by_iteration-Mem x (row ∷ rs) (head e) = insert-Mem x row (by_iteration rs) (head e)
by_iteration-Mem x (row ∷ rs) (tail m) =
    insert-Mem x row (by_iteration rs) (tail (by_iteration-Mem x rs m))

pub diagnosed-Mem :
    (run_id id : String) (db : Db) (d : IsDiagnosed run_id id db)
    → Memᴰ (id, d.0) (diagnosed_rows run_id db)
unfolding diagnosed_rows
diagnosed-Mem run_id id db (e, stored, own, state) =
    by_iteration-Mem (id, e) _
      (filter-Mem (λ row. row.1.run_id == run_id && row.1.state == diagnosed) (id, e) db.experiments
        (get-Mem id db.experiments stored)
        (rw (own, state, ==_refl run_id, ==_refl diagnosed) refl))

own-IsDiagnosed :
    (run_id id : String) (db : Db) (e : Experiment)
    → of_run run_id (get id db.experiments) ≡ some e
    → (e.state == diagnosed) ≡ true
    → IsDiagnosed run_id id db
own-IsDiagnosed run_id id db e own state = elim (Option-cases (get id db.experiments)) [
  | inl missing ↦ let q : none ≡ some e = rw missing at own in cc
  | inr (x, stored) ↦
      let q : (if x.run_id == run_id then some x else none) ≡ some e = rw stored at own in
      elim (Bool-cases (x.run_id == run_id)) [
        | inl same ↦
            let r : some x ≡ some e = rw same at q in
            let f = some-injective _ _ r in
            (x, stored, eq_of_== same, ap (λ y. y.state) f ∙ eq_of_== state)
        | inr other ↦ let r : none ≡ some e = rw other at q in cc
      ]
]

-- The experiment that is locked was diagnosed, and the row of the run is locked on it.
pub record Locks (run_id id : String) (db : Db) (t : Table String Run) : Type 0 where
  pub finalist : IsDiagnosed run_id id db
  pub row :
      (run : Run) × (get run_id t ≡ some run)
      × (run.validation_phase ≡ finalist_locked)
      × (run.finalist_experiment_id ≡ some id)

Locks-put :
    (run_id id : String) (db : Db) (e : Experiment) (run : Run)
    → of_run run_id (get id db.experiments) ≡ some e
    → (e.state == diagnosed) ≡ true
    → run.validation_phase ≡ finalist_locked
    → run.finalist_experiment_id ≡ some id
    → Locks run_id id db (put run_id run db.runs)
Locks-put run_id id db e run own state phase finalist = record {
  finalist = own-IsDiagnosed run_id id db e own state;
  row = (run, get-put_self run_id run db.runs, phase, finalist);
}

-- What the lock leaves, under a key that is free.
pub lock-Locks :
    (env : Env) (run_id id : String) (evidence : List String) (key : String) (db : Db)
    → get key db.phase_transitions ≡ none
    → Ensures
        (λ r. Locks run_id id db r.1.runs)
        (lock_validation_finalist env run_id id evidence key db)
unfolding lock_validation_finalist
lock-Locks env run_id id evidence key db free = rw free (
    Ensures-require_some (get run_id db.runs) _ _ (λ run _.
      Ensures-require_some (of_run run_id (get id db.experiments)) _ _
        (λ e own. search (Ensures-require, Ensures-ok, Locks-put run_id id db e, own) depth 14)))

-- Registering an artifact writes no run.
content-runs :
    (env : Env) (ref : ArtifactRef) (e attempt : Option String) (db : Db)
    → Ensures (λ db'. db'.runs ≡ db.runs) (store_content env ref e attempt db)
unfolding store_content
content-runs env ref e attempt db = search (ensures_rules, refl) depth 12

link-runs :
    (env : Env) (sep : String) (ref : ArtifactRef) (e attempt run : Option String) (db : Db)
    → Ensures (λ r. r.1.runs ≡ db.runs) (link_artifact env sep ref e attempt run db)
unfolding link_artifact announce
link-runs env sep ref e attempt none db = search (ensures_rules, refl) depth 12
link-runs env sep ref e attempt (some run) db = search (ensures_rules, refl) depth 12

pub register-runs :
    (env : Env) (sep : String) (ref : ArtifactRef) (e attempt : Option String) (db : Db)
    → Ensures (λ r. r.1.runs ≡ db.runs) (register_artifact env sep ref e attempt db)
unfolding register_artifact
register-runs env sep ref e attempt db = Ensures-bind (attempt_owner attempt e db) _ (λ owner _.
    Ensures-bind (owner_run owner db) _ (λ run _.
      Ensures-bind (store_content env ref owner attempt db) _ (λ db' stored.
        subst (λ t. Ensures (λ r. r.1.runs ≡ t) (link_artifact env sep ref owner attempt run db'))
          ((content-runs env ref owner attempt db).at db' stored)
          (link-runs env sep ref owner attempt run db'))))
