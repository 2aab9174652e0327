-- ===== src/Agents/Search/Choice.antt =====
-- What `next_card` of src/rex/agents/search_policy.py chooses.
use mathlib.Core.List.{Memᴰ}
use mathlib.Core.List.Memᴰ.{head, tail, cases_cons}
use tiktok_techjam_recsys_ag.Prelude.{
  ◌≡◌, refl, sym, inl, inr, Bool, true, false, not, Option, none, some, List, [], ◌∷◌, String, ◌==◌,
  string_eq, all, filter_by, find_by, Bool-cases, eq_of_==, ==_refl,
}
use tiktok_techjam_recsys_ag.Agents.Search.{
  ExperimentCard, is_eligible, Arithmetic, utility, precedes, least, attempted_families, select,
  next_card,
}

module _ {A : Type 0} (p : A → Bool) where
  filter-Mem : (x : A) (xs : List A) → Memᴰ x (filter_by p xs) → Memᴰ x xs × (p x ≡ true)
  unfolding filter_by
  filter-Mem x [] m = elim m [ ]
  filter-Mem x (y ∷ ys) m = elim (Bool-cases (p y)) [
    | inl kept ↦
        let n : Memᴰ x (y ∷ filter_by p ys) = rw kept at m in
        elim n [
          | head e ↦ (head e, rw e kept)
          | tail k ↦ let r = filter-Mem x ys k in (tail r.0, r.1)
        ]
    | inr dropped ↦ let r = filter-Mem x ys (rw dropped at m) in (tail r.0, r.1)
  ]

  filter_none : (xs : List A) → filter_by p xs ≡ [] → all (λ x. not (p x)) xs ≡ true
  unfolding filter_by
  filter_none [] h = refl
  filter_none (x ∷ xs) h = elim (Bool-cases (p x)) [
    | inl kept ↦ cc
    | inr dropped ↦
        let rest : filter_by p xs ≡ [] = rw dropped at h in rw (dropped, filter_none xs rest) refl
  ]

  find-Mem : (xs : List A) (x : A) → find_by p xs ≡ some x → Memᴰ x xs × (p x ≡ true)
  unfolding find_by
  find-Mem [] x h = cc
  find-Mem (y ∷ ys) x h = elim (Bool-cases (p y)) [
    | inl found ↦ let q : y ≡ x = cc in (head (sym q), rw (← q) found)
    | inr other ↦
        let later : find_by p ys ≡ some x = rw other at h in
        let r = find-Mem ys x later in (tail r.0, r.1)
  ]

  find_none : (xs : List A) (x : A) → find_by p xs ≡ none → Memᴰ x xs → p x ≡ false
  unfolding find_by
  find_none [] x h m = elim m [ ]
  find_none (y ∷ ys) x h m = elim (Bool-cases (p y)) [
    | inl found ↦ cc
    | inr other ↦
        let later : find_by p ys ≡ none = rw other at h in
        elim m [ head e ↦ rw e other | tail n ↦ find_none ys x later n ]
  ]

  filter_keeps : (x : A) (xs : List A) → Memᴰ x xs → p x ≡ true → Memᴰ x (filter_by p xs)
  unfolding filter_by
  filter_keeps x [] m h = m
  filter_keeps x (y ∷ ys) (head e) h = let q : p y ≡ true = rw (← e) h in rw q (head e)
  filter_keeps x (y ∷ ys) (tail m) h = elim (Bool-cases (p y)) [
    | inl kept ↦ rw kept (tail (filter_keeps x ys m h))
    | inr dropped ↦ rw dropped (filter_keeps x ys m h)
  ]

module _ {F : Type 0} (arithmetic : Arithmetic F) where
  least-Mem :
      (families : List String) (best : ExperimentCard) (rest : List ExperimentCard)
      → Memᴰ (least arithmetic families best rest) (best ∷ rest)
  unfolding least
  least-Mem families best [] = head refl
  least-Mem families best (card ∷ rest) =
      elim (Bool-cases (
        precedes arithmetic (utility arithmetic families card)
          (utility arithmetic families best))) [
            | inl better ↦ rw better (tail (least-Mem families card rest))
            | inr worse ↦ rw worse (elim (cases_cons (least-Mem families best rest)) [
              | inl same ↦ head same
              | inr later ↦ tail (tail later)
            ])
          ]

  -- What a choice from the queue must be.
  abbrev pub IsChoice :
      List ExperimentCard → List String → List String → Option ExperimentCard → Type 0
  IsChoice cards attempted flags none =
      all (λ card. not (is_eligible attempted flags card)) cards ≡ true
  IsChoice cards attempted flags (some card) =
      Memᴰ card cards
      × (is_eligible attempted flags card ≡ true)
      × ((other : ExperimentCard)
          → Memᴰ other cards
          → is_eligible attempted flags other ≡ true
          → other.card_id ≡ "E16"
          → card.card_id ≡ "E16")

  select-IsChoice :
      (cards : List ExperimentCard) (attempted flags families : List String)
      (isolation : Option ExperimentCard) (eligible : List ExperimentCard)
      → filter_by (is_eligible attempted flags) cards ≡ eligible
      → find_by (λ card. card.card_id == "E16") eligible ≡ isolation
      → IsChoice cards attempted flags (select arithmetic families isolation eligible)
  select-IsChoice cards attempted flags families isolation [] kept found =
      filter_none (is_eligible attempted flags) cards kept
  select-IsChoice cards attempted flags families (some card) (first ∷ rest) kept found =
      let m = find-Mem (λ card. card.card_id == "E16") (first ∷ rest) card found in
      let r = filter-Mem (is_eligible attempted flags) card cards (rw kept m.0) in
      (r.0, r.1, λ other _ _ _. eq_of_== m.1)
  select-IsChoice cards attempted flags families none (first ∷ rest) kept found =
      let card = least arithmetic families first rest in
      let r =
        filter-Mem (is_eligible attempted flags) card cards
          (rw kept (least-Mem families first rest)) in
      (r.0, r.1, λ other m able named. absurd (isolated other m able named))
    where
      isolated :
          (other : ExperimentCard)
          → Memᴰ other cards
          → is_eligible attempted flags other ≡ true
          → other.card_id ≡ "E16"
          → ⊥
      isolated other m able named =
          let n : Memᴰ other (first ∷ rest) =
            rw (← kept) (filter_keeps (is_eligible attempted flags) other cards m able) in
          let apart = find_none (λ card. card.card_id == "E16") (first ∷ rest) other found n in
          let same : (other.card_id == "E16") ≡ true = rw named (==_refl {A = String} "E16") in cc

  -- `next_card` chooses a card of the queue that may be tried, E16 when that one may be; it chooses none
  -- exactly when no card may be tried.
  pub next_card-IsChoice :
      (cards : List ExperimentCard) (attempted flags : List String)
      → IsChoice cards attempted flags (next_card arithmetic cards attempted flags)
  unfolding next_card
  next_card-IsChoice cards attempted flags =
      select-IsChoice cards attempted flags (attempted_families cards attempted)
        (find_by (λ card. card.card_id == "E16") (filter_by (is_eligible attempted flags) cards))
        (filter_by (is_eligible attempted flags) cards) refl refl
