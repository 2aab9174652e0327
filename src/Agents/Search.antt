-- ===== src/Agents/Search.antt =====
-- src/rex/agents/search_policy.py: the cards of the search, which of them may be tried, and which is next.
-- A set is a list of its members. The texts of a card that no choice reads are left out: its mechanism,
-- its target segments, its falsifier and its diversity target.
pub mod Queue
pub mod Choice
pub mod Progress
use Prim.Native.String.{String, ◌++◌ as join}
use tiktok_techjam_recsys_ag.Prelude.{
  ℕ, ◌-◌, Bool, true, false, not, ◌&&◌, ◌||◌, Option, none, some, List, [], ◌∷◌, ◌++◌, ◌==◌,
  string_eq, nat_eq, contains, all, any, filter_by, find_by, count_distinct, leb, map, is_some,
  if◌then◌else◌,
}
use tiktok_techjam_recsys_ag.Prelude.Texts.{text_ltb, lower}
use tiktok_techjam_recsys_ag.Prelude.Int.{pos}
use tiktok_techjam_recsys_ag.Prelude.Decimal.{Float}

pub record ExperimentCard : Type 0 where
  pub card_id : String
  pub prerequisite : Option String
  pub stage : String
  pub family : String
  pub expected_gain : Float
  pub estimated_cost_seconds : ℕ
  pub memory_mb : ℕ
  pub dependencies : List String
  pub parent : Option String

-- `if self.family == "legacy"`
abbrev family_of : ExperimentCard → String
family_of card =
    if card.family == "legacy" then join "legacy_" (lower card.card_id) else card.family

-- `if self.prerequisite and not self.dependencies`; the empty text is false.
abbrev dependencies_of : Option String → List String → List String
dependencies_of (some flag) [] = if flag == "" then [] else flag ∷ []
dependencies_of none [] = []
dependencies_of given (name ∷ names) = name ∷ names

-- `__post_init__`
unfoldable pub initialized : ExperimentCard → ExperimentCard
initialized card = record card {
  family = family_of card;
  dependencies = dependencies_of card.prerequisite card.dependencies;
}

-- SUPPORTED_FLAGS
abbrev pub supported_flags : List (String × List String)
supported_flags =
    ("E15", "context_ensemble_supported" ∷ "finalist_ready" ∷ [])
    ∷ ("E16", "ensemble_isolation_supported" ∷ [])
    ∷ ("E17", "context_cross_supported" ∷ [])
    ∷ ("E18", "context_cross_supported" ∷ [])
    ∷ ("E01", "E01_supported" ∷ [])
    ∷ ("E02", "tree_supported" ∷ [])
    ∷ ("E03", "history_supported" ∷ [])
    ∷ ("E06", "history_supported" ∷ [])
    ∷ ("E07", "history_supported" ∷ [])
    ∷ ("E08", "history_supported" ∷ [])
    ∷ ("E09", "E09_supported" ∷ [])
    ∷ ("E10", "finalist_ready" ∷ [])
    ∷ ("E11", "E11_supported" ∷ [])
    ∷ ("E12", "E12_decided" ∷ [])
    ∷ ("E19", "metadata_supported" ∷ [])
    ∷ ("E20", "metadata_supported" ∷ [])
    ∷ ("E21", "finalist_ready" ∷ "fwfm_supported" ∷ [])
    ∷ ("E22", "candidate_recency_supported" ∷ "history_supported" ∷ [])
    ∷ ("E23", "history_supported" ∷ [])
    ∷ ("E24", "tree_supported" ∷ [])
    ∷ ("E25", "finalist_ready" ∷ [])
    ∷ ("E26", "pointwise_tree_supported" ∷ "tree_supported" ∷ [])
    ∷ ("E27", "pointwise_tree_supported" ∷ "tree_supported" ∷ [])
    ∷ ("E28", "candidate_recency_supported" ∷ "finalist_ready" ∷ "history_supported" ∷ [])
    ∷ ("E29", "pointwise_tree_supported" ∷ "tree_supported" ∷ [])
    ∷ ("E30", "finalist_ready" ∷ [])
    ∷ []

-- Float arithmetic, as the utility uses it: the literals and the numbers of a card, `*`, `/`, `+`, `-x`, and
-- the comparisons `<` and `==`.
pub record Arithmetic (F : Type 0) : Type 0 where
  pub literal : Float → F
  pub whole : ℕ → F
  pub times : F → F → F
  pub over : F → F → F
  pub plus : F → F → F
  pub minus : F → F
  pub less : F → F → Bool
  pub same : F → F → Bool

abbrev pub is_eligible : List String → List String → ExperimentCard → Bool
is_eligible attempted flags card =
    card.stage == "search"
    && not (contains card.card_id attempted)
    && allows card.prerequisite
    && all (λ flag. contains flag flags) card.dependencies
  where
    allows : Option String → Bool
    allows none = true
    allows (some flag) = contains flag flags

abbrev pub attempted_families : List ExperimentCard → List String → List String
attempted_families cards attempted =
    map (λ card. card.family) (filter_by (λ card. contains card.card_id attempted) cards)

module _ {F : Type 0} (arithmetic : Arithmetic F) where
  -- `max(1.0, x)`: the second only when it is greater.
  abbrev pub at_least_one : F → F
  at_least_one x = if arithmetic.less (arithmetic.whole 1) x then x else arithmetic.whole 1

  -- `utility`
  abbrev pub utility : List String → ExperimentCard → F × String
  utility families card =
      let novelty =
        if not (contains card.family families)
        then arithmetic.literal (record { mantissa = pos 125; places = 2 })
        else arithmetic.whole 1 in
      let cost =
        at_least_one
          (arithmetic.over (arithmetic.whole card.estimated_cost_seconds) (arithmetic.whole 600)) in
      let memory_risk =
        arithmetic.plus (arithmetic.whole 1)
          (arithmetic.over (arithmetic.whole (card.memory_mb - 1536)) (arithmetic.whole 8192)) in
      (
        arithmetic.minus (
            arithmetic.over
              (arithmetic.over (arithmetic.times (arithmetic.literal card.expected_gain) novelty)
                cost)
              memory_risk),
        card.card_id,
      )

  -- `<` on such pairs
  abbrev pub precedes : F × String → F × String → Bool
  precedes a b = if arithmetic.same a.0 b.0 then text_ltb a.1 b.1 else arithmetic.less a.0 b.0

  -- `min(cards, key=utility)`: the first of the least.
  unfoldable pub least : List String → ExperimentCard → List ExperimentCard → ExperimentCard
  least families best [] = best
  least families best (card ∷ rest) =
      least families
        (if precedes (utility families card) (utility families best) then card else best) rest

  -- The card of the isolation experiment, or the least.
  abbrev pub select :
      List String → Option ExperimentCard → List ExperimentCard → Option ExperimentCard
  select families isolation [] = none
  select families (some card) (first ∷ rest) = some card
  select families none (first ∷ rest) = some (least families first rest)

  unfoldable pub next_card : List ExperimentCard → List String → List String → Option ExperimentCard
  next_card cards attempted flags =
      let eligible = filter_by (is_eligible attempted flags) cards in
      select (attempted_families cards attempted) (find_by (λ card. card.card_id == "E16") eligible)
        eligible

-- `SUPPORTED_FLAGS.get(card_id, set())`
abbrev flags_of : Option (String × List String) → List String
flags_of none = []
flags_of (some row) = row.1

abbrev flags_of_all : List String → List String
flags_of_all [] = []
flags_of_all (id ∷ ids) =
    flags_of (find_by (λ row. row.0 == id) supported_flags) ++ flags_of_all ids

-- `evidence_flags`, with the families of the cards of the given queue.
unfoldable pub evidence_flags : List ExperimentCard → List String → List String
evidence_flags queue promoted =
    flags_of_all promoted
    ++ (if contains "E01" promoted
          && any (λ id. contains id promoted) ("E02" ∷ "E03" ∷ "E06" ∷ "E07" ∷ "E08" ∷ [])
        then "two_branches_supported" ∷ []
        else [])
    ++ (if leb 2 (
          count_distinct
            (map (λ card. card.family) (filter_by (λ card. contains card.card_id promoted) queue)))
        then "two_diverse_families_supported" ∷ []
        else [])
