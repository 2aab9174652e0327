-- ===== src/Tests/Searches.antt =====
-- The search of src/rex/agents/search_policy.py over its own queue.
use tiktok_techjam_recsys_ag.Prelude.{
  refl, some, String-discrete, filter_by, find_by, ℕ, ◌≡◌, ◌*◌, ◌+◌, ◌/◌, none, List, [], ◌∷◌,
  String, ltb, length, ◌==◌, nat_eq,
}
use tiktok_techjam_recsys_ag.Prelude.Int.{pos}
use tiktok_techjam_recsys_ag.Store.Schema.{Db}
use tiktok_techjam_recsys_ag.Store.Calls.{empty}
use tiktok_techjam_recsys_ag.Agents.Search.{
  ExperimentCard, least, Arithmetic, next_card, evidence_flags,
}
use tiktok_techjam_recsys_ag.Control.Supervisor.{choose_card, cards_of}
use tiktok_techjam_recsys_ag.Control.Supervisor.Untried.{IsUntried, choose_card-IsUntried}
use tiktok_techjam_recsys_ag.Tests.Histories.{abandoned_row}
use tiktok_techjam_recsys_ag.Agents.Search.Queue.{default_queue}
use tiktok_techjam_recsys_ag.Agents.Search.Choice.{IsChoice, next_card-IsChoice}
use tiktok_techjam_recsys_ag.Agents.Search.Progress.{rounds, search_ends}

-- An arithmetic on natural numbers; a negated number is compared the other way round.
abbrev arithmetic : Arithmetic ℕ
arithmetic = record {
  literal = λ x. x.places;
  whole = λ n. n;
  times = λ a b. a * b;
  over = λ a b. a / b;
  plus = λ a b. a + b;
  minus = λ a. a;
  less = λ a b. ltb b a;
  same = λ a b. a == b;
}

abbrev tried : List String
tried = "E15" ∷ "E22" ∷ []

next_card-IsChoice_example :
    IsChoice arithmetic default_queue tried
      (evidence_flags default_queue tried)
      (next_card arithmetic default_queue tried (evidence_flags default_queue tried))
next_card-IsChoice_example =
    next_card-IsChoice arithmetic default_queue tried (evidence_flags default_queue tried)

search_ends_example :
    let last =
      rounds arithmetic default_queue (evidence_flags default_queue) (length default_queue) tried in
    next_card arithmetic default_queue last (evidence_flags default_queue last) ≡ none
search_ends_example = search_ends arithmetic default_queue (evidence_flags default_queue) tried

abbrev tree_card : ExperimentCard
tree_card = record {
  card_id = "E24";
  prerequisite = none;
  stage = "search";
  family = "boosted_tree";
  expected_gain = record { mantissa = pos 15; places = 4 };
  estimated_cost_seconds = 900;
  memory_mb = 2048;
  dependencies = [];
  parent = some "baseline";
}

abbrev cards : List ExperimentCard
cards = record tree_card { card_id = "E15" } ∷ record tree_card { card_id = "E20" } ∷ tree_card ∷ []

-- The run has tried E15, and the configuration does not bind E20.
abbrev db : Db
db = record empty {
  experiments = ("x1", record abandoned_row { method_card_id = some "E15" }) ∷ [];
}

tree_is_next :
    choose_card arithmetic default_queue cards ("E15" ∷ "E24" ∷ []) "r1" db ≡ some tree_card
unfolding choose_card cards_of next_card least filter_by find_by String-discrete evidence_flags
tree_is_next = refl

choose_card-IsUntried_example : IsUntried cards ("E15" ∷ "E24" ∷ []) "r1" db tree_card
choose_card-IsUntried_example =
    choose_card-IsUntried arithmetic default_queue cards ("E15" ∷ "E24" ∷ []) "r1" db tree_card
      tree_is_next
