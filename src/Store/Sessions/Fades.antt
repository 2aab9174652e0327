-- ===== src/Store/Sessions/Fades.antt =====
-- Which session holds the lease of which run in the table of src/rex/store/repository.py.
use mathlib.Core.Path.{subst}
use tiktok_techjam_recsys_ag.Prelude.{
  ◌≡◌, refl, sym, ap, ◌∙◌, ◌⊎◌, inl, inr, Bool, true, false, Option, none, some, String, ◌==◌,
  string_eq, is_some, if◌then◌else◌, Bool-cases, eq_of_==,
}
use tiktok_techjam_recsys_ag.Prelude.Table.{Table, get, put, get-put}
use tiktok_techjam_recsys_ag.Store.Schema.{ProcessSession}

-- The run whose lease a session holds.
abbrev pub lease : Option ProcessSession → Option String
lease none = none
lease (some s) = if is_some s.ended_at then none else some s.run_id

-- No two sessions hold the lease of one run.
pub record SingleActive (t : Table String ProcessSession) : Type 0 where
  pub at : (run i j : String) → lease (get i t) ≡ some run → lease (get j t) ≡ some run → i ≡ j

-- A session's lease is kept or given up.
pub record Fades (t t' : Table String ProcessSession) : Type 0 where
  pub at : (i : String) → (lease (get i t') ≡ none) ⊎ (lease (get i t') ≡ lease (get i t))

pub Fades-refl : (t : Table String ProcessSession) → Fades t t
Fades-refl t = record { at = λ i. inr refl }

pub Fades-trans : (t t' t'' : Table String ProcessSession) → Fades t t' → Fades t' t'' → Fades t t''
Fades-trans t t' t'' h h' = record {
  at = λ i. elim (h'.at i) [
    | inl gone ↦ inl gone
    | inr kept ↦ elim (h.at i) [ inl gone ↦ inl (cc) | inr same ↦ inr (cc) ]
  ];
}

lease_split :
    (b : Bool) (s : ProcessSession) (o : Option ProcessSession)
    → lease (if b then some s else o) ≡ (if b then lease (some s) else lease o)
lease_split true s o = refl
lease_split false s o = refl

pub lease-put :
    (id i : String) (s : ProcessSession) (t : Table String ProcessSession)
    → lease (get i (put id s t)) ≡ (if id == i then lease (some s) else lease (get i t))
lease-put id i s t = ap lease (get-put id i s t) ∙ lease_split (id == i) s (get i t)

pub Fades-put :
    (id : String) (s : ProcessSession) (t : Table String ProcessSession)
    → (lease (some s) ≡ none) ⊎ (lease (some s) ≡ lease (get id t))
    → Fades t (put id s t)
Fades-put id s t h = record {
  at = λ i. rw (lease-put id i s t) (elim (Bool-cases (id == i)) [
    | inl same ↦ rw same (
        subst (λ k. (lease (some s) ≡ none) ⊎ (lease (some s) ≡ lease (get k t))) (eq_of_== same) h)
    | inr other ↦ rw other (inr refl)
  ]);
}

pub Fades-SingleActive :
    (t t' : Table String ProcessSession) → Fades t t' → SingleActive t → SingleActive t'
Fades-SingleActive t t' h v = record {
  at = λ run i j hi hj. elim (h.at i) [
    | inl gone ↦ cc
    | inr same ↦ elim (h.at j) [
      | inl gone ↦ cc
      | inr same' ↦ v.at run i j (sym same ∙ hi) (sym same' ∙ hj)
    ]
  ];
}

-- A session whose row keeps its run and its end.
pub SingleActive-same :
    (id : String) (s s' : ProcessSession) (t : Table String ProcessSession)
    → SingleActive t
    → get id t ≡ some s
    → s'.run_id ≡ s.run_id
    → s'.ended_at ≡ s.ended_at
    → SingleActive (put id s' t)
SingleActive-same id s s' t v h r e =
    Fades-SingleActive t (put id s' t) (Fades-put id s' t (inr (rw (h, r, e) refl))) v

-- A session that ends.
pub SingleActive-ended :
    (id : String) (s' : ProcessSession) (t : Table String ProcessSession)
    → SingleActive t
    → is_some s'.ended_at ≡ true
    → SingleActive (put id s' t)
SingleActive-ended id s' t v e =
    Fades-SingleActive t (put id s' t) (Fades-put id s' t (inl (rw e refl))) v
