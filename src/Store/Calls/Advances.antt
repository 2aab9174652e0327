-- ===== src/Store/Calls/Advances.antt =====
-- How the row of a run may change over time: its validation phase and its finalist.
use tiktok_techjam_recsys_ag.Prelude.{
  ℕ, ◌≡◌, ◌≤◌, refl, ◌⊎◌, inl, inr, Bool, true, false, Option, none, some, String, ◌==◌, string_eq,
  arith, if◌then◌else◌, eq_of_==,
}
use tiktok_techjam_recsys_ag.Prelude.Table.{Table, get, put, Related, Related-refl, Related-put}
use tiktok_techjam_recsys_ag.Contracts.{
  ValidationPhase, discovery, finalist_locked, official_evaluated, phase_eq,
}
use tiktok_techjam_recsys_ag.Store.Schema.{Run, Db}

abbrev pub rank : ValidationPhase → ℕ
rank discovery = 0
rank finalist_locked = 1
rank official_evaluated = 2

-- A run is not removed, its phase does not fall, and its finalist is fixed once DISCOVERY is left.
abbrev pub Advanced : Option Run → Option Run → Type 0
Advanced none o = Unit
Advanced (some r) none = ⊥
Advanced (some r) (some r') =
    (rank r.validation_phase ≤ rank r'.validation_phase)
    × ((r.validation_phase ≡ discovery) ⊎ (r'.finalist_experiment_id ≡ r.finalist_experiment_id))

abbrev pub Advances : Table String Run → Table String Run → Type 0
Advances = Related Advanced

pub Advanced-refl : (o : Option Run) → Advanced o o
Advanced-refl none = tt
Advanced-refl (some r) = (omega arith, inr refl)

rank_zero : (p : ValidationPhase) → rank p ≤ 0 → p ≡ discovery
rank_zero discovery h = refl
rank_zero finalist_locked h = absurd (omega arith)
rank_zero official_evaluated h = absurd (omega arith)

pub Advanced-trans : (o o' o'' : Option Run) → Advanced o o' → Advanced o' o'' → Advanced o o''
Advanced-trans none o' o'' h h' = tt
Advanced-trans (some r) none o'' h h' = absurd h
Advanced-trans (some r) (some r') none h h' = absurd h'
Advanced-trans (some r) (some r') (some r'') (le, inl d) (le', h') = (omega arith, inl d)
Advanced-trans (some r) (some r') (some r'') (le, inr f) (le', inl d) =
    let low : rank r'.validation_phase ≡ 0 = rw d refl in
    (omega arith, inl (rank_zero r.validation_phase (omega arith)))
Advanced-trans (some r) (some r') (some r'') (le, inr f) (le', inr f') = (omega arith, inr cc)

pub Advances-refl : (t : Table String Run) → Advances t t
Advances-refl t = Related-refl Advanced t Advanced-refl

-- The row of a new run.
pub Advances-new :
    (id : String) (r' : Run) (t : Table String Run) → get id t ≡ none → Advances t (put id r' t)
Advances-new id r' t h = Related-put Advanced id r' t Advanced-refl (rw h tt)

-- The row of a run whose phase and finalist are kept.
pub Advances-keep :
    (id : String) (r r' : Run) (t : Table String Run)
    → get id t ≡ some r
    → r'.validation_phase ≡ r.validation_phase
    → r'.finalist_experiment_id ≡ r.finalist_experiment_id
    → Advances t (put id r' t)
Advances-keep id r r' t h p f =
    Related-put Advanced id r' t Advanced-refl (rw (h, p) (omega arith, inr f))

-- The row of a run in DISCOVERY, whatever becomes of it.
pub Advances-lock :
    (id : String) (r r' : Run) (t : Table String Run)
    → get id t ≡ some r
    → (r.validation_phase == discovery) ≡ true
    → Advances t (put id r' t)
Advances-lock id r r' t h p =
    let d : r.validation_phase ≡ discovery = eq_of_== p in
    Related-put Advanced id r' t Advanced-refl (rw (h, d) (omega arith, inl refl))

pub Advances-if :
    (b : Bool) (t x y : Table String Run)
    → Advances t x
    → Advances t y
    → Advances t (if b then x else y)
Advances-if true t x y hx hy = hx
Advances-if false t x y hx hy = hy

abbrev pub AdvancesFrom : Db → Db → Type 0
AdvancesFrom db db' = Advances db.runs db'.runs

last_rank : (p : ValidationPhase) → rank p ≤ 2
last_rank discovery = omega arith
last_rank finalist_locked = omega arith
last_rank official_evaluated = omega arith

-- The row of a run whose evaluation is consumed.
pub Advances-consume :
    (id : String) (r r' : Run) (t : Table String Run)
    → get id t ≡ some r
    → r'.validation_phase ≡ official_evaluated
    → r'.finalist_experiment_id ≡ r.finalist_experiment_id
    → Advances t (put id r' t)
Advances-consume id r r' t h p f =
    Related-put Advanced id r' t Advanced-refl (rw (h, p) (last_rank r.validation_phase, inr f))
