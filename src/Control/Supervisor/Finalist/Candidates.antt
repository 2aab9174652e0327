-- ===== src/Control/Supervisor/Finalist/Candidates.antt =====
-- The candidates of `_lock_shadow_finalist` in src/rex/control/production_supervisor.py, and the largest of them.
use mathlib.Core.List.{Memᴰ}
use mathlib.Core.List.Memᴰ.{head, tail}
use mathlib.Core.Option.{some-injective}
use mathlib.Core.Path.{subst}
use tiktok_techjam_recsys_ag.Prelude.{
  ◌≡◌, refl, sym, ap, ◌∙◌, ◌⊎◌, inl, inr, Bool, true, false, Option, none, some, List, [], ◌∷◌,
  String, ◌==◌, string_eq, option_eq, nat_eq, Bool-cases, eq_of_==, ==_refl, if◌then◌else◌,
}
use tiktok_techjam_recsys_ag.Contracts.{phase_eq, experiment_state_eq}
use tiktok_techjam_recsys_ag.Features.PointInTime.Returns.{bind_some}
use tiktok_techjam_recsys_ag.Store.Schema.{Experiment, Db}
use tiktok_techjam_recsys_ag.Control.Supervisor.Finalist.{
  Reports, full_mean, with_score, scored, ranks_above, strongest, score_of,
}

-- The order of Python's floats, but for NaN.
pub record IsRanked {F : Type 0} (reports : Reports F) : Type 0 where
  pub asym : (a b : F) → reports.less a b ≡ true → reports.less b a ≡ false
  pub between :
      (a b c : F) → reports.less a c ≡ true → (reports.less a b ≡ true) ⊎ (reports.less b c ≡ true)
  pub ties :
      (a b : F) → reports.equal a b ≡ true → (reports.less a b ≡ false) × (reports.less b a ≡ false)

module _ {F : Type 0} (reports : Reports F) where
  module _ (laws : IsRanked reports) where
    not_true : (b : Bool) → (b ≡ true → b ≡ false) → b ≡ false
    not_true true h = h refl
    not_true false h = refl

    ranks_above-below :
        (c best : F × String) → ranks_above reports c best ≡ true → reports.less c.0 best.0 ≡ false
    ranks_above-below c best h = elim (Bool-cases (reports.equal c.0 best.0)) [
      | inl tie ↦ (laws.ties c.0 best.0 tie).0
      | inr apart ↦ laws.asym best.0 c.0 (rw apart at h)
    ]

    -- The next choice is not below what the last one was not below, nor below the candidate.
    rises :
        (best c : F × String) (x : F)
        → reports.less best.0 x ≡ false
        → reports.less (if ranks_above reports c best then c else best).0 x ≡ false
    rises best c x h = elim (Bool-cases (ranks_above reports c best)) [
      | inr kept ↦ rw kept h
      | inl larger ↦ rw larger (
          not_true _ (λ l. elim (laws.between c.0 best.0 x l) [
            | inl below ↦ cc (ranks_above-below c best larger)
            | inr under ↦ cc
          ]))
    ]

    reaches :
        (best c : F × String)
        → reports.less (if ranks_above reports c best then c else best).0 c.0 ≡ false
    reaches best c = elim (Bool-cases (ranks_above reports c best)) [
      | inl larger ↦ rw larger (not_true _ (laws.asym c.0 c.0))
      | inr kept ↦ rw kept (elim (Bool-cases (reports.equal c.0 best.0)) [
        | inl tie ↦ (laws.ties c.0 best.0 tie).1
        | inr apart ↦ rw apart at kept
      ])
    ]

    strongest-keeps :
        (best : F × String) (cs : List (F × String)) (x : F)
        → reports.less best.0 x ≡ false
        → reports.less (strongest reports best cs).0 x ≡ false
    unfolding strongest
    strongest-keeps best [] x h = h
    strongest-keeps best (c ∷ cs) x h =
        strongest-keeps (if ranks_above reports c best then c else best) cs x (rises best c x h)

    candidates-max :
        (best : F × String) (cs : List (F × String)) (c : F × String)
        → Memᴰ c cs
        → reports.less (strongest reports best cs).0 c.0 ≡ false
    unfolding strongest
    candidates-max best [] c m = elim m [ ]
    candidates-max best (d ∷ cs) c (head e) =
        strongest-keeps (if ranks_above reports d best then d else best) cs c.0 (
          ap (λ p. reports.less (if ranks_above reports d best then d else best).0 p.0) e
          ∙ reaches best d)
    candidates-max best (d ∷ cs) c (tail m) =
        candidates-max (if ranks_above reports d best then d else best) cs c m

    -- No candidate has a larger score than the strongest.
    pub strongest-max :
        (best : F × String) (cs : List (F × String)) (c : F × String)
        → Memᴰ c (best ∷ cs)
        → reports.less (strongest reports best cs).0 c.0 ≡ false
    strongest-max best cs c (head e) =
        strongest-keeps best cs c.0
          (ap (λ p. reports.less best.0 p.0) e ∙ not_true _ (laws.asym best.0 best.0))
    strongest-max best cs c (tail m) = candidates-max best cs c m

  pub strongest-Mem :
      (best : F × String) (cs : List (F × String)) → Memᴰ (strongest reports best cs) (best ∷ cs)
  unfolding strongest
  strongest-Mem best [] = head refl
  strongest-Mem best (c ∷ cs) =
      either (ranks_above reports c best)
        (strongest-Mem (if ranks_above reports c best then c else best) cs)
    where
      either :
          (b : Bool)
          → {x : F × String} → Memᴰ x ((if b then c else best) ∷ cs)
          → Memᴰ x (best ∷ c ∷ cs)
      either true m = tail m
      either false (head e) = head e
      either false (tail m) = tail (tail m)

  pub score_of-Mem :
      (id : String) (cs : List (F × String)) {s : F}
      → score_of reports id cs ≡ some s
      → Memᴰ (s, id) cs
  unfolding score_of
  score_of-Mem id [] h = cc
  score_of-Mem id ((t, other) ∷ cs) h = elim (Bool-cases (other == id)) [
    | inl same ↦
        let q : some t ≡ some _ = rw same at h in
        head
          (ap (λ u. (u, id)) (sym (some-injective _ _ q)) ∙ ap (λ i. (t, i)) (sym (eq_of_== same)))
    | inr later ↦ tail (score_of-Mem id cs (rw later at h))
  ]

  pub score_of-none :
      (id : String) (cs : List (F × String)) (s : F)
      → score_of reports id cs ≡ none
      → Memᴰ (s, id) cs
      → ⊥
  unfolding score_of
  score_of-none id [] s h m = elim m [ ]
  score_of-none id ((t, other) ∷ cs) s h (head e) =
      let q : (other == id) ≡ true = ap (λ p. p.1 == id) (sym e) ∙ ==_refl id in
      let r : some t ≡ none = rw q at h in cc
  score_of-none id ((t, other) ∷ cs) s h (tail m) = elim (Bool-cases (other == id)) [
    | inl same ↦ let r : some t ≡ none = rw same at h in cc
    | inr later ↦ score_of-none id cs s (rw later at h) m
  ]

  with_score-Mem :
      (o : Option F) (id : String) (rest : List (F × String)) (c : F × String)
      → Memᴰ c (with_score reports o id rest)
      → ((o ≡ some c.0) × (c.1 ≡ id)) ⊎ Memᴰ c rest
  with_score-Mem none id rest c m = inr m
  with_score-Mem (some s) id rest c (head e) = inl (ap (λ p. some p.0) (sym e), ap (λ p. p.1) e)
  with_score-Mem (some s) id rest c (tail m) = inr m

  with_score-tail :
      (o : Option F) (id : String) (rest : List (F × String)) (c : F × String)
      → Memᴰ c rest
      → Memᴰ c (with_score reports o id rest)
  with_score-tail none id rest c m = m
  with_score-tail (some s) id rest c m = tail m

  module _ (db : Db) where
    -- A candidate has the mean of its stored result as its score.
    pub scored-mean :
        (rs : List (String × Experiment)) {cs : List (F × String)} (c : F × String)
        → scored reports db rs ≡ some cs
        → Memᴰ c cs
        → full_mean reports c.1 db ≡ some (some c.0)
    unfolding scored
    scored-mean [] c h m = elim (subst (Memᴰ c) (sym (some-injective _ _ h)) m) [ ]
    scored-mean ((id, e) ∷ rs) c h m =
        let (score, stored, h') = bind_some (full_mean reports id db) _ h in
        let (rest, others, h'') = bind_some (scored reports db rs) _ h' in
        elim (with_score-Mem score id rest c (subst (Memᴰ c) (sym (some-injective _ _ h'')) m)) [
          | inl (s, i) ↦ ap (λ k. full_mean reports k db) i ∙ stored ∙ ap some s
          | inr n ↦ scored-mean rs c others n
        ]

    -- Each row with a stored result is a candidate.
    pub scored-Mem :
        (rs : List (String × Experiment)) {cs : List (F × String)} (id : String) (e : Experiment)
        (s : F)
        → scored reports db rs ≡ some cs
        → full_mean reports id db ≡ some (some s)
        → Memᴰ (id, e) rs
        → Memᴰ (s, id) cs
    unfolding scored
    scored-Mem [] id e s h mean m = elim m [ ]
    scored-Mem ((i, x) ∷ rs) id e s h mean m =
        let (score, stored, h') = bind_some (full_mean reports i db) _ h in
        let (rest, others, h'') = bind_some (scored reports db rs) _ h' in
        subst (Memᴰ (s, id)) (some-injective _ _ h'')
          (among score rest stored (scored-Mem rs id e s others mean) m)
      where
        among :
            (score : Option F) (rest : List (F × String))
            → full_mean reports i db ≡ some score
            → (Memᴰ (id, e) rs → Memᴰ (s, id) rest)
            → Memᴰ (id, e) ((i, x) ∷ rs)
            → Memᴰ (s, id) (with_score reports score i rest)
        among score rest stored others (head f) =
            let same : id ≡ i = ap (λ p. p.0) f in
            let found : score ≡ some s =
              some-injective _ _
                (sym stored ∙ ap (λ k. full_mean reports k db) (sym same) ∙ mean) in
            rw found (head (ap (λ k. (s, k)) same))
        among score rest stored others (tail n) = with_score-tail score i rest (s, id) (others n)
