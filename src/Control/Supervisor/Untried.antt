-- ===== src/Control/Supervisor/Untried.antt =====
-- Which card `_next_card` of src/rex/control/production_supervisor.py gives to the search loop.
use mathlib.Core.Path.{subst}
use mathlib.Core.List.{Memᴰ}
use mathlib.Core.List.Memᴰ.{head, tail}
use tiktok_techjam_recsys_ag.Prelude.{
  ◌≡◌, refl, sym, ◌∙◌, inl, inr, true, false, not, ◌&&◌, ◌||◌, some, List, [], ◌∷◌, ◌++◌, String,
  ◌==◌, string_eq, String-discrete, contains, filter_by, if◌then◌else◌, Bool-cases, eq_of_==,
  ==_refl, arith,
}
use tiktok_techjam_recsys_ag.Prelude.Table.{Table, get}
use tiktok_techjam_recsys_ag.Store.Schema.{Experiment, Db}
use tiktok_techjam_recsys_ag.Agents.Search.{ExperimentCard, Arithmetic, is_eligible, evidence_flags}
use tiktok_techjam_recsys_ag.Agents.Search.Choice.{IsChoice, next_card-IsChoice}
use tiktok_techjam_recsys_ag.Control.Supervisor.{
  given_card, cards_of, attempted_cards, supported_cards, unsupported_cards, choose_card,
}

contains-append :
    (a : String) (xs ys : List String) → contains a (xs ++ ys) ≡ (contains a xs || contains a ys)
contains-append a [] ys = refl
contains-append a (x ∷ xs) ys = ground (arith, contains-append a xs ys)

-- The card of a stored experiment of the run is among the attempted ones.
given_lem : (id : String) → (id == "") ≡ false → contains id (given_card (some id)) ≡ true
given_lem id h = rw (h, ==_refl id) refl

cards_of-get :
    (e run_id id : String) (x : Experiment) (t : Table String Experiment)
    → get e t ≡ some x
    → x.run_id ≡ run_id
    → x.method_card_id ≡ some id
    → (id == "") ≡ false
    → contains id (cards_of (λ _. true) run_id t) ≡ true
unfolding cards_of get
cards_of-get e run_id id x [] h run card named = cc
cards_of-get e run_id id x ((k, row) ∷ t) h run card named =
    rw
      (contains-append id
        (if row.run_id == run_id && true then given_card row.method_card_id else [])
        (cards_of (λ _. true) run_id t))
      (elim (Bool-cases (k == e)) [
        | inl here ↦
            let q : some row ≡ some x = rw here at h in
            let r : row ≡ x = cc in rw (r, run, card, ==_refl run_id, given_lem id named) refl
        | inr later ↦
            let rest = cards_of-get e run_id id x t (rw later at h) run card named in
            ground (arith, rest)
      ])

-- A search card that the configuration does not bind is among the unsupported ones.
unsupported-Mem :
    (card : ExperimentCard) (cards : List ExperimentCard) (method_cards : List String)
    → Memᴰ card cards
    → card.stage ≡ "search"
    → contains card.card_id method_cards ≡ false
    → contains card.card_id (unsupported_cards cards method_cards) ≡ true
unfolding filter_by String-discrete
unsupported-Mem card [] method_cards m stage unbound = elim m [ ]
unsupported-Mem card (c ∷ cards) method_cards (head e) stage unbound =
    subst (λ d. contains card.card_id (unsupported_cards (d ∷ cards) method_cards) ≡ true) e
      (rw (stage, unbound, ==_refl card.card_id) refl)
unsupported-Mem card (c ∷ cards) method_cards (tail m) stage unbound =
    elim (Bool-cases (c.stage == "search" && not (contains c.card_id method_cards))) [
      | inl kept ↦ rw (kept, unsupported-Mem card cards method_cards m stage unbound) (ground arith)
      | inr dropped ↦ rw dropped (unsupported-Mem card cards method_cards m stage unbound)
    ]

-- What an eligible card is.
eligible_lem :
    (attempted flags : List String) (card : ExperimentCard)
    → is_eligible attempted flags card ≡ true
    → (card.stage ≡ "search") × (contains card.card_id attempted ≡ false)
eligible_lem attempted flags card h =
    let stage : (card.stage == "search") ≡ true = ground arith in
    let fresh : contains card.card_id attempted ≡ false = ground arith in (eq_of_== stage, fresh)

-- A card of the search that the configuration binds, and that no experiment of the run has tried.
pub record IsUntried (cards : List ExperimentCard) (method_cards : List String) (run_id : String)
    (db : Db) (card : ExperimentCard) : Type 0 where
  pub is_card : Memᴰ card cards
  pub is_search : card.stage ≡ "search"
  pub is_bound : contains card.card_id method_cards ≡ true
  pub is_untried :
      (e : String) (x : Experiment)
      → get e db.experiments ≡ some x
      → x.run_id ≡ run_id
      → (x.method_card_id ≡ some card.card_id)
      → card.card_id ≡ ""

module _ {F : Type 0} (arithmetic : Arithmetic F) (queue cards : List ExperimentCard)
    (method_cards : List String) where
  -- The card that the search loop tries next is a search card of the policy that the configuration binds, and
  -- no stored experiment of the run carries its identifier (unless that is the empty text, which stands for
  -- no card).
  pub choose_card-IsUntried :
      (run_id : String) (db : Db) (card : ExperimentCard)
      → choose_card arithmetic queue cards method_cards run_id db ≡ some card
      → IsUntried cards method_cards run_id db card
  unfolding choose_card
  choose_card-IsUntried run_id db card h =
      let attempted = attempted_cards run_id db in
      let closed = attempted ++ unsupported_cards cards method_cards in
      let flags = evidence_flags queue (supported_cards run_id db) in
      let choice : IsChoice arithmetic cards closed flags (some card) =
        rw h at (next_card-IsChoice arithmetic cards closed flags) in
      let facts = eligible_lem closed flags card choice.1 in
      let apart : (contains card.card_id attempted
            || contains card.card_id (unsupported_cards cards method_cards))
          ≡ false =
        sym (contains-append card.card_id attempted (unsupported_cards cards method_cards))
        ∙ facts.1 in
      record {
        is_card = choice.0;
        is_search = facts.0;
        is_bound = elim (Bool-cases (contains card.card_id method_cards)) [
          | inl bound ↦ bound
          | inr unbound ↦
              let closes = unsupported-Mem card cards method_cards choice.0 facts.0 unbound in
              ground (arith, closes, apart)
        ];
        is_untried = λ e x stored run carried. elim (Bool-cases (card.card_id == "")) [
          | inl blank ↦ eq_of_== blank
          | inr named ↦
              let tried =
                cards_of-get e run_id card.card_id x db.experiments stored run carried named in
              absurd (ground (arith, tried, apart))
        ];
      }
