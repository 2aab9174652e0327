-- ===== src/Store/Repairs/Limit.antt =====
-- How many repairs an experiment can reserve.
use tiktok_techjam_recsys_ag.Prelude.{
  ℕ, ◌+◌, ◌≤◌, ◌<◌, ◌≡◌, refl, ◌⊎◌, inl, inr, true, false, not, Option, none, some, [], ◌∷◌, String,
  ◌==◌, string_eq, arith, leb, is_some, ==_refl,
}
use tiktok_techjam_recsys_ag.Prelude.Table.{Table, get, put}
use tiktok_techjam_recsys_ag.Result.Ensures.{
  Ensures, Ensures-ok, Ensures-require, Ensures-on_row, Ensures-require_some,
}
use tiktok_techjam_recsys_ag.Contracts.{AttemptStatus}
use tiktok_techjam_recsys_ag.Store.Documents.{Fields}
use tiktok_techjam_recsys_ag.Store.Schema.{Repair, RepairId, repair_id_eq, Db}
use tiktok_techjam_recsys_ag.Store.Events.{Env}
use tiktok_techjam_recsys_ag.Store.Repairs.{
  RepairReply, new_repair, count_repairs, experiment_repairs_used, reserve_experiment_repair,
}

-- A new row counts once.
count_repairs-put :
    (e : String) (id : RepairId) (r : Repair) (t : Table RepairId Repair)
    → get id t ≡ none
    → (r.experiment_id == e) ≡ true
    → count_repairs e (put id r t) ≡ count_repairs e t + 1
unfolding count_repairs get put
count_repairs-put e id r [] h own = ground arith
count_repairs-put e id r ((j, s) ∷ t) h own = ground (arith, count_repairs-put e id r t)

-- The reply resumes a repair and changes nothing, or it is a new repair within the limit.
unfoldable pub Reserved : String → ℕ → Db → RepairReply × Db → Type 0
Reserved e maximum db reply =
    ((reply.0.0 ≡ true) × (reply.1 ≡ db))
    ⊎ ((reply.0.0 ≡ false)
        × (reply.0.2 ≡ experiment_repairs_used e db + 1)
        × (reply.0.2 ≤ maximum)
        × (experiment_repairs_used e reply.1 ≡ reply.0.2))

Reserved-resumed :
    (e : String) (maximum : ℕ) (db : Db) (id : RepairId) (n : ℕ)
    → Reserved e maximum db ((true, id, n), db)
unfolding Reserved
Reserved-resumed e maximum db id n = inl (refl, refl)

is_none : {A : Type 0} (o : Option A) → not (is_some o) ≡ true → o ≡ none
is_none none h = refl
is_none (some a) h = cc

Reserved-new :
    (e : String) (maximum : ℕ) (r : Repair) (db : Db) (id : RepairId) (db' : Db)
    → not (leb maximum (experiment_repairs_used e db)) ≡ true
    → not (is_some (get id db.repairs)) ≡ true
    → r.experiment_id ≡ e
    → db'.repairs ≡ put id r db.repairs
    → Reserved e maximum db ((false, id, experiment_repairs_used e db + 1), db')
unfolding experiment_repairs_used Reserved
Reserved-new e maximum r db id db' room fresh own p =
    let bound : count_repairs e db.repairs < maximum = ground arith in
    inr (
      refl,
      refl,
      omega arith,
      rw p (
          count_repairs-put e id r db.repairs (is_none (get id db.repairs) fresh)
            (rw own (==_refl e))),
    )

-- `reserve_experiment_repair` either resumes the incomplete repair and changes nothing, or it
-- reserves one new repair: its number is one more than the repairs used before, at most the
-- maximum, and it is the number of repairs used afterwards.
pub reserve_repair-Reserved :
    (env : Env) (e phase : String) (failure : AttemptStatus) (plan : Fields) (maximum : ℕ) (db : Db)
    → Ensures
        (Reserved e maximum db)
        (reserve_experiment_repair env e phase failure plan maximum db)
unfolding reserve_experiment_repair
reserve_repair-Reserved env e phase failure plan maximum db =
    search
      (
        Ensures-ok,
        Ensures-require,
        Ensures-on_row,
        Ensures-require_some,
        Reserved-resumed e maximum db,
        Reserved-new e maximum
            (new_repair env e phase failure plan (experiment_repairs_used e db + 1)) db,
      )
      depth 16
