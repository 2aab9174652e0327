-- ===== src/Store/Sessions/Leases.antt =====
-- Which session holds the lease of which run, before and after the calls of src/rex/store/repository.py
-- on process sessions.
use mathlib.Core.Path.{subst}
use tiktok_techjam_recsys_ag.Prelude.{
  ℕ, ◌≡◌, refl, sym, ap, ◌∙◌, inl, inr, true, ◌||◌, Option, none, some, List, [], ◌∷◌, String, ◌==◌,
  map, string_eq, contains, filter_by, arith, Bool-cases, Option-cases, eq_of_==, ==_refl,
}
use tiktok_techjam_recsys_ag.Prelude.Decimal.{Float}
use tiktok_techjam_recsys_ag.Prelude.Table.{Table, get, put}
use tiktok_techjam_recsys_ag.Result.{ok, repository_error, ◌>>=◌}
use tiktok_techjam_recsys_ag.Result.Ensures.{Ensures, Ensures-ok, Ensures-require, Ensures-bind}
use tiktok_techjam_recsys_ag.Store.Schema.{ProcessSession, Db}
use tiktok_techjam_recsys_ag.Store.Events.{Env}
use tiktok_techjam_recsys_ag.Store.Sessions.{
  Host, is_active, insert_by_start, by_start, active_sessions, judge, is_stale, stale_reason,
  end_session, take_over, stale_ids,
}
use tiktok_techjam_recsys_ag.Store.Sessions.Fades.{
  lease, SingleActive, Fades, Fades-refl, Fades-trans, lease-put, Fades-put, Fades-SingleActive,
}

end_session-Fades :
    (observed_at : ℕ) (reason id : String) (t : Table String ProcessSession)
    → Fades t (end_session observed_at reason id t)
unfolding end_session
end_session-Fades observed_at reason id t = elim (Option-cases (get id t)) [
  | inl missing ↦ rw (missing, end_session) (Fades-refl t)
  | inr (s, found) ↦
      rw (found, end_session)
        (Fades-put id (record s { ended_at = some observed_at; exit_reason = some reason }) t
          (inl refl))
]

end_session-lease :
    (observed_at : ℕ) (reason id : String) (t : Table String ProcessSession)
    → lease (get id (end_session observed_at reason id t)) ≡ none
unfolding end_session
end_session-lease observed_at reason id t = elim (Option-cases (get id t)) [
  | inl missing ↦ rw (missing, end_session) (ap lease missing)
  | inr (s, found) ↦
      rw (found, end_session)
        (lease-put id id (record s { ended_at = some observed_at; exit_reason = some reason }) t
          ∙ rw (==_refl id) refl)
]

take_over-Fades :
    (env : Env) (run session : String) (observed_at : ℕ) (stale : List (String × String)) (db : Db)
    → Fades db.process_sessions (take_over env run session observed_at stale db).process_sessions
unfolding take_over
take_over-Fades env run session observed_at [] db = Fades-refl db.process_sessions
take_over-Fades env run session observed_at ((id, reason) ∷ rest) db =
    Fades-trans db.process_sessions (end_session observed_at reason id db.process_sessions) _
      (end_session-Fades observed_at reason id db.process_sessions)
      (take_over-Fades env run session observed_at rest _)

Fades-none :
    (t t' : Table String ProcessSession) (i : String)
    → Fades t t'
    → lease (get i t) ≡ none
    → lease (get i t') ≡ none
Fades-none t t' i h gone = elim (h.at i) [ inl e ↦ e | inr e ↦ e ∙ gone ]

-- Every session of the list has lost its lease.
take_over-lease :
    (env : Env) (run session : String) (observed_at : ℕ) (stale : List (String × String)) (db : Db)
    (i : String)
    → contains i (stale_ids stale) ≡ true
    → lease (get i (take_over env run session observed_at stale db).process_sessions) ≡ none
unfolding take_over
take_over-lease env run session observed_at [] db i h = cc
take_over-lease env run session observed_at ((id, reason) ∷ rest) db i h =
    elim (Bool-cases (id == i)) [
      | inl same ↦
          let ended : Table String ProcessSession =
            end_session observed_at reason id db.process_sessions in
          let gone : lease (get i ended) ≡ none =
            subst (λ k. lease (get k ended) ≡ none) (eq_of_== same)
              (end_session-lease observed_at reason id db.process_sessions) in
          Fades-none ended _ i (take_over-Fades env run session observed_at rest _) gone
      | inr other ↦ take_over-lease env run session observed_at rest _ i (ground arith)
    ]

ids : List (String × ProcessSession) → List String
ids rows = map (λ row. row.0) rows

contains-insert :
    (i : String) (row : String × ProcessSession) (rows : List (String × ProcessSession))
    → contains i (ids (insert_by_start row rows)) ≡ (row.0 == i || contains i (ids rows))
unfolding insert_by_start ids
contains-insert i row [] = refl
contains-insert i row (other ∷ rest) = ground (arith, contains-insert i row rest)

contains-by_start :
    (i : String) (rows : List (String × ProcessSession))
    → contains i (ids (by_start rows)) ≡ contains i (ids rows)
unfolding by_start ids
contains-by_start i [] = refl
contains-by_start i (row ∷ rest) =
    unfold ids in contains-insert i row (by_start rest) ∙ rw (contains-by_start i rest) refl

contains-filter :
    (run i : String) (t : Table String ProcessSession)
    → lease (get i t) ≡ some run
    → contains i (ids (filter_by (λ row. is_active run row.1) t)) ≡ true
unfolding filter_by ids get
contains-filter run i [] h = cc
contains-filter run i ((k, s) ∷ t) h = ground (arith, contains-filter run i t)

-- The holder of a run's lease is among its active sessions.
contains-active :
    (run i : String) (t : Table String ProcessSession)
    → lease (get i t) ≡ some run
    → contains i (ids (active_sessions run t)) ≡ true
unfolding active_sessions
contains-active run i t h =
    contains-by_start i (filter_by (λ row. is_active run row.1) t) ∙ contains-filter run i t h

-- The loop lists every session that it was given.
judge-ids :
    (host : Host) (observed_at : ℕ) (after : Option Float) (proven : List String)
    (rows : List (String × ProcessSession))
    → Ensures (λ stale. stale_ids stale ≡ ids rows) (judge host observed_at after proven rows)
unfolding judge ids
judge-ids host observed_at after proven [] = Ensures-ok [] refl
judge-ids host observed_at after proven ((id, s) ∷ rest) =
    Ensures-require (is_stale host observed_at after proven id s)
      (repository_error "run already has an active process session")
      (judge host observed_at after proven rest >>= λ stale.
        ok ((id, stale_reason host proven id s) ∷ stale))
      (λ _.
        Ensures-bind (judge host observed_at after proven rest)
          (λ stale. ok ((id, stale_reason host proven id s) ∷ stale))
          (λ stale done.
            Ensures-ok ((id, stale_reason host proven id s) ∷ stale)
              (ap (λ xs. id ∷ xs) ((judge-ids host observed_at after proven rest).at stale done))))

-- After the take-over nobody holds the lease of the run.
free_after_take_over :
    (env : Env) (host : Host) (run session : String) (observed_at : ℕ) (after : Option Float)
    (proven : List String) (stale : List (String × String)) (db : Db) (i : String)
    → judge host observed_at after proven (active_sessions run db.process_sessions) ≡ ok stale
    → lease (get i (take_over env run session observed_at stale db).process_sessions) ≡ some run
    → ⊥
free_after_take_over env host run session observed_at after proven stale db i judged held =
    elim ((take_over-Fades env run session observed_at stale db).at i) [
      | inl gone ↦ cc
      | inr same ↦
          let listed : contains i (stale_ids stale) ≡ true =
            ap (contains i) (
              (judge-ids host observed_at after proven (active_sessions run db.process_sessions)).at
                stale judged)
            ∙ contains-active run i db.process_sessions (sym same ∙ held) in
          cc (take_over-lease env run session observed_at stale db i listed)
    ]

-- The new session is the only one of its run.
SingleActive-open :
    (id : String) (s : ProcessSession) (t : Table String ProcessSession)
    → SingleActive t
    → s.ended_at ≡ none
    → ((i : String) → lease (get i t) ≡ some s.run_id → ⊥)
    → SingleActive (put id s t)
SingleActive-open id s t v open_ free = record {
  at = λ run i j hi hj.
      let held : lease (some s) ≡ some s.run_id = rw open_ refl in
      let li = sym (lease-put id i s t) ∙ hi in
      let lj = sym (lease-put id j s t) ∙ hj in
      elim (Bool-cases (id == i)) [
        | inl ei ↦ elim (Bool-cases (id == j)) [
          | inl ej ↦ sym (eq_of_== ei) ∙ eq_of_== ej
          | inr nj ↦ absurd (free j (cc))
        ]
        | inr ni ↦ elim (Bool-cases (id == j)) [
          | inl ej ↦ absurd (free i (cc))
          | inr nj ↦ v.at run i j (cc) (cc)
        ]
      ];
}

pub SingleActive-opened :
    (env : Env) (host : Host) (run session : String) (observed_at : ℕ) (after : Option Float)
    (proven : List String) (stale : List (String × String)) (db : Db) (s : ProcessSession)
    → SingleActive db.process_sessions
    → judge host observed_at after proven (active_sessions run db.process_sessions) ≡ ok stale
    → s.ended_at ≡ none
    → s.run_id ≡ run
    → SingleActive (put session s (take_over env run session observed_at stale db).process_sessions)
SingleActive-opened env host run session observed_at after proven stale db s v judged open_ own =
    let after_ : Table String ProcessSession =
      (take_over env run session observed_at stale db).process_sessions in
    SingleActive-open session s after_
      (Fades-SingleActive db.process_sessions after_
        (take_over-Fades env run session observed_at stale db) v)
      open_
      (λ i held.
        free_after_take_over env host run session observed_at after proven stale db i judged
          (held ∙ ap some own))
