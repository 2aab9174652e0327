-- ===== src/Control/Supervisor.antt =====
-- src/rex/control/production_supervisor.py: the decisions of the search loop, `_next_card`,
-- `_valid_family_count`, `_plateau_eligible` and `_stop_reason`, on the tables of the store; and
-- src/rex/control/budget.py: `should_finalize`. Times are whole milliseconds.
pub mod Untried
pub mod Deadline
pub mod Finalist
use tiktok_techjam_recsys_ag.Prelude.{
  ℕ, Bool, true, false, not, ◌&&◌, ◌*◌, Option, none, some, List, [], ◌∷◌, ◌++◌, String, ◌==◌,
  string_eq, option_eq, leb, contains, any, filter_by, map, count_distinct, is_some, if◌then◌else◌,
}
use tiktok_techjam_recsys_ag.Prelude.Int.{ℤ, pos, ◌-ℤ◌, leb_ℤ, max_ℤ}
use tiktok_techjam_recsys_ag.Prelude.Table.{Table, get, rows}
use tiktok_techjam_recsys_ag.Contracts.{ExperimentState, experiment_state_eq, diagnosed}
use tiktok_techjam_recsys_ag.Control.Budget.{scientific_plateau_reached}
use tiktok_techjam_recsys_ag.Store.Schema.{
  Run, Experiment, Transition, ShadowEvaluation, Artifact, ArtifactLink, Db,
}
use tiktok_techjam_recsys_ag.Agents.Search.{ExperimentCard, Arithmetic, next_card, evidence_flags}

-- `if row["method_card_id"]`: neither NULL nor the empty text.
abbrev given_card : Option String → List String
given_card none = []
given_card (some id) = if id == "" then [] else id ∷ []

-- The method cards of the experiments of a run that a test selects.
unfoldable pub cards_of : (String → Bool) → String → Table String Experiment → List String
cards_of selected run_id [] = []
cards_of selected run_id ((id, row) ∷ rest) =
    (if row.run_id == run_id && selected id then given_card row.method_card_id else [])
    ++ cards_of selected run_id rest

-- The experiment has a transition to DIAGNOSED.
abbrev pub was_diagnosed : Db → String → Bool
was_diagnosed db id =
    any (λ row. row.experiment_id == id && row.to_state == diagnosed) (rows db.transitions)

abbrev pub attempted_cards : String → Db → List String
attempted_cards run_id db = cards_of (λ _. true) run_id db.experiments

abbrev pub supported_cards : String → Db → List String
supported_cards run_id db = cards_of (was_diagnosed db) run_id db.experiments

-- The search cards that the configuration does not bind.
abbrev pub unsupported_cards : List ExperimentCard → List String → List String
unsupported_cards cards method_cards =
    map (λ card. card.card_id)
      (filter_by (λ card. card.stage == "search" && not (contains card.card_id method_cards)) cards)

-- `_next_card`; `queue` is the queue that `evidence_flags` reads.
unfoldable pub choose_card :
    {F : Type 0}
    → Arithmetic F
    → List ExperimentCard
    → List ExperimentCard
    → List String
    → String
    → Db
    → Option ExperimentCard
choose_card arithmetic queue cards method_cards run_id db =
    next_card arithmetic cards (attempted_cards run_id db ++ unsupported_cards cards method_cards)
      (evidence_flags queue (supported_cards run_id db))

-- The second query of `_valid_family_count`.
abbrev has_full_result : Db → String → Bool
has_full_result db id =
    any (λ link. link.experiment_id == some id && is_full (get link.artifact_id db.artifacts))
      (rows db.artifact_links)
  where
    is_full : Option Artifact → Bool
    is_full none = false
    is_full (some artifact) = artifact.kind == "production_full_result"

unfoldable pub valid_family_count : List ExperimentCard → String → Db → ℕ
valid_family_count cards run_id db =
    let recorded =
      map (λ row. row.family)
        (filter_by (λ row. row.run_id == run_id) (rows db.shadow_evaluations)) in
    let completed = cards_of (has_full_result db) run_id db.experiments in
    count_distinct (
      recorded
      ++ map (λ card. card.family) (filter_by (λ card. contains card.card_id completed) cards))

-- The fields of the budget that the loop reads.
pub record Limits : Type 0 where
  pub max_hypotheses : ℕ
  pub max_official_evaluations : ℕ
  pub finalization_reserve_ms : ℤ
  pub min_valid_families_before_plateau : ℕ

unfoldable pub plateau_eligible : Limits → List ExperimentCard → String → Db → Bool
plateau_eligible limits cards run_id db =
    leb limits.min_valid_families_before_plateau (valid_family_count cards run_id db)

-- `seconds_remaining` and `should_finalize` of the budget.
abbrev pub remaining_ms : ℤ → ℤ → ℤ
remaining_ms deadline_ms now_ms = max_ℤ (pos 0) (deadline_ms -ℤ now_ms)

unfoldable pub should_finalize : ℤ → ℤ → ℤ → Bool
should_finalize deadline_ms reserve_ms now_ms = leb_ℤ (remaining_ms deadline_ms now_ms) reserve_ms

unfoldable pub stop_reason : Limits → List ExperimentCard → ℤ → String → Run → Db → Option String
stop_reason limits cards now_ms run_id run db =
    if scientific_plateau_reached run.stop_reason (valid_family_count cards run_id db)
      limits.min_valid_families_before_plateau
    then some "epsilon_plateau"
    else if leb limits.max_hypotheses run.hypothesis_count
    then some "hypothesis_cap"
    else if leb limits.max_official_evaluations run.official_evaluation_count
    then some "official_evaluation_cap"
    else if should_finalize run.deadline_epoch_ms limits.finalization_reserve_ms now_ms
    then some "finalization_reserve_reached"
    else none
