-- ===== src/Agents/Search/Progress.antt =====
-- The rounds of a search that tries the card of `next_card` of src/rex/agents/search_policy.py each time.
use mathlib.Core.Path.{subst}
use mathlib.Core.List.{Memᴰ}
use mathlib.Core.List.Memᴰ.{head, tail}
use tiktok_techjam_recsys_ag.Prelude.{
  ℕ, zero, suc, ◌≡◌, ◌≤◌, ◌<◌, inl, inr, Bool, true, false, not, ◌&&◌, Option, none, some, List, [],
  ◌∷◌, String, ◌==◌, string_eq, contains, length, if◌then◌else◌, Bool-cases, Option-cases, arith,
}
use tiktok_techjam_recsys_ag.Agents.Search.{ExperimentCard, is_eligible, Arithmetic, next_card}
use tiktok_techjam_recsys_ag.Agents.Search.Choice.{IsChoice, next_card-IsChoice}

-- A card that has not been tried.
abbrev is_open : List String → ExperimentCard → Bool
is_open attempted card = card.stage == "search" && not (contains card.card_id attempted)

count_open : List String → List ExperimentCard → ℕ
count_open attempted [] = 0
count_open attempted (card ∷ cards) =
    let rest = count_open attempted cards in if is_open attempted card then suc rest else rest

open_before :
    (id : String) (attempted : List String) (card : ExperimentCard)
    → is_open (id ∷ attempted) card ≡ true
    → is_open attempted card ≡ true
open_before id attempted card h = ground arith

count_fewer :
    (id : String) (attempted : List String) (cards : List ExperimentCard)
    → count_open (id ∷ attempted) cards ≤ count_open attempted cards
unfolding count_open
count_fewer id attempted [] = omega arith
count_fewer id attempted (card ∷ cards) = elim (Bool-cases (is_open (id ∷ attempted) card)) [
  | inl still ↦
      rw (still, open_before id attempted card still)
        (omega (arith, count_fewer id attempted cards))
  | inr closed ↦ elim (Bool-cases (is_open attempted card)) [
    | inl before ↦ rw (closed, before) (omega (arith, count_fewer id attempted cards))
    | inr never ↦ rw (closed, never) (count_fewer id attempted cards)
  ]
]

closes :
    (attempted : List String) (card : ExperimentCard)
    → is_open (card.card_id ∷ attempted) card ≡ false
closes attempted card = ground arith

count_less :
    (attempted : List String) (card : ExperimentCard) (cards : List ExperimentCard)
    → Memᴰ card cards
    → is_open attempted card ≡ true
    → count_open (card.card_id ∷ attempted) cards < count_open attempted cards
unfolding count_open
count_less attempted card [] m h = elim m [ ]
count_less attempted card (x ∷ cards) (head e) h =
    let now : is_open (card.card_id ∷ attempted) x ≡ false =
      subst (λ y. is_open (card.card_id ∷ attempted) y ≡ false) e (closes attempted card) in
    let before : is_open attempted x ≡ true = subst (λ y. is_open attempted y ≡ true) e h in
    rw (now, before) (omega (arith, count_fewer card.card_id attempted cards))
count_less attempted card (x ∷ cards) (tail m) h =
    elim (Bool-cases (is_open (card.card_id ∷ attempted) x)) [
      | inl still ↦
          rw (still, open_before card.card_id attempted x still)
            (omega (arith, count_less attempted card cards m h))
      | inr closed ↦ elim (Bool-cases (is_open attempted x)) [
        | inl before ↦ rw (closed, before) (omega (arith, count_less attempted card cards m h))
        | inr never ↦ rw (closed, never) (count_less attempted card cards m h)
      ]
    ]

count_bound :
    (attempted : List String) (cards : List ExperimentCard)
    → count_open attempted cards ≤ length cards
unfolding count_open
count_bound attempted [] = omega arith
count_bound attempted (card ∷ cards) = elim (Bool-cases (is_open attempted card)) [
  | inl here ↦ rw here (omega (arith, count_bound attempted cards))
  | inr closed ↦ rw closed (omega (arith, count_bound attempted cards))
]

eligible_is_open :
    (attempted flags : List String) (card : ExperimentCard)
    → is_eligible attempted flags card ≡ true
    → is_open attempted card ≡ true
eligible_is_open attempted flags card h = ground arith

module _ {F : Type 0} (arithmetic : Arithmetic F) (cards : List ExperimentCard)
    (evidence : List String → List String) where
  abbrev next : List String → Option ExperimentCard
  next attempted = next_card arithmetic cards attempted (evidence attempted)

  abbrev tried : List String → Option ExperimentCard → List String
  tried attempted none = attempted
  tried attempted (some card) = card.card_id ∷ attempted

  -- The cards tried after a number of rounds; the flags of a round may depend on what was tried before.
  unfoldable pub rounds : ℕ → List String → List String
  rounds zero attempted = attempted
  rounds (suc n) attempted = rounds n (tried attempted (next attempted))

  stays :
      (n : ℕ) (attempted : List String) → next attempted ≡ none → next (rounds n attempted) ≡ none
  unfolding rounds
  stays zero attempted h = h
  stays (suc n) attempted h = rw h (stays n attempted h)

  shrinks :
      (attempted : List String) (card : ExperimentCard)
      → next attempted ≡ some card
      → count_open (card.card_id ∷ attempted) cards < count_open attempted cards
  shrinks attempted card h =
      let choice : IsChoice arithmetic cards attempted (evidence attempted) (some card) =
        rw h at (next_card-IsChoice arithmetic cards attempted (evidence attempted)) in
      count_less attempted card cards choice.0
        (eligible_is_open attempted (evidence attempted) card choice.1)

  ends :
      (n : ℕ) (attempted : List String)
      → count_open attempted cards ≤ n
      → next (rounds n attempted) ≡ none
  unfolding rounds
  ends zero attempted h = elim (Option-cases (next attempted)) [
    | inl done ↦ done
    | inr (card, more) ↦ absurd (omega (arith, shrinks attempted card more))
  ]
  ends (suc n) attempted h = elim (Option-cases (next attempted)) [
    | inl done ↦ rw done (stays n attempted done)
    | inr (card, more) ↦
        rw more (ends n (card.card_id ∷ attempted) (omega (arith, shrinks attempted card more)))
  ]

  -- After as many rounds as there are cards, each trying the card that is chosen and reading any evidence, no
  -- card is left to choose.
  pub search_ends :
      (attempted : List String)
      → let last = rounds (length cards) attempted in
        next_card arithmetic cards last (evidence last) ≡ none
  search_ends attempted = ends (length cards) attempted (count_bound attempted cards)
