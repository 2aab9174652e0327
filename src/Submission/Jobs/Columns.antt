-- ===== src/Submission/Jobs/Columns.antt =====
-- src/rex/submission/repository.py: `_UPDATE_COLUMNS`, and the assignments of an UPDATE to these columns.
use tiktok_techjam_recsys_ag.Prelude.{
  ◌≡◌, refl, ◌∙◌, Bool, String, Option, none, some, List, [], ◌∷◌, ◌==◌, string_eq, is_some,
  if◌then◌else◌,
}
use tiktok_techjam_recsys_ag.Submission.Schema.{Job}

pub data Column : Type 0 where
  source_commit config_sha256 incumbent_experiment_id worktree_path prediction_request_json
        prediction_path prediction_sha256 csv_path csv_sha256 staging_path sealed_path seal_sha256
        error_code error_summary :
      Column

column_of : String → Option Column
column_of name =
    if name == "source_commit"
    then some Column.source_commit
    else if name == "config_sha256"
    then some Column.config_sha256
    else if name == "incumbent_experiment_id"
    then some Column.incumbent_experiment_id
    else if name == "worktree_path"
    then some Column.worktree_path
    else if name == "prediction_request_json"
    then some Column.prediction_request_json
    else if name == "prediction_path"
    then some Column.prediction_path
    else if name == "prediction_sha256"
    then some Column.prediction_sha256
    else if name == "csv_path"
    then some Column.csv_path
    else if name == "csv_sha256"
    then some Column.csv_sha256
    else if name == "staging_path"
    then some Column.staging_path
    else if name == "sealed_path"
    then some Column.sealed_path
    else if name == "seal_sha256"
    then some Column.seal_sha256
    else if name == "error_code"
    then some Column.error_code
    else if name == "error_summary"
    then some Column.error_summary
    else none

unfoldable pub is_update_column : String → Bool
unfolding column_of
is_update_column name = is_some (column_of name)

set_column : Option Column → Option String → Job → Job
set_column (some Column.source_commit) value job = record job { source_commit = value }
set_column (some Column.config_sha256) value job = record job { config_sha256 = value }
set_column (some Column.incumbent_experiment_id) value job = record job {
  incumbent_experiment_id = value;
}
set_column (some Column.worktree_path) value job = record job { worktree_path = value }
set_column (some Column.prediction_request_json) value job = record job {
  prediction_request_json = value;
}
set_column (some Column.prediction_path) value job = record job { prediction_path = value }
set_column (some Column.prediction_sha256) value job = record job { prediction_sha256 = value }
set_column (some Column.csv_path) value job = record job { csv_path = value }
set_column (some Column.csv_sha256) value job = record job { csv_sha256 = value }
set_column (some Column.staging_path) value job = record job { staging_path = value }
set_column (some Column.sealed_path) value job = record job { sealed_path = value }
set_column (some Column.seal_sha256) value job = record job { seal_sha256 = value }
set_column (some Column.error_code) value job = record job { error_code = value }
set_column (some Column.error_summary) value job = record job { error_summary = value }
set_column none value job = job

-- The assignments in the order in which they are given.
unfoldable pub set_columns : List (String × Option String) → Job → Job
unfolding set_column column_of
set_columns [] job = job
set_columns ((name, value) ∷ rest) job = set_columns rest (set_column (column_of name) value job)

set_column-state :
    (c : Option Column) (value : Option String) (job : Job)
    → (set_column c value job).state ≡ job.state
unfolding set_column
set_column-state (some Column.source_commit) value job = refl
set_column-state (some Column.config_sha256) value job = refl
set_column-state (some Column.incumbent_experiment_id) value job = refl
set_column-state (some Column.worktree_path) value job = refl
set_column-state (some Column.prediction_request_json) value job = refl
set_column-state (some Column.prediction_path) value job = refl
set_column-state (some Column.prediction_sha256) value job = refl
set_column-state (some Column.csv_path) value job = refl
set_column-state (some Column.csv_sha256) value job = refl
set_column-state (some Column.staging_path) value job = refl
set_column-state (some Column.sealed_path) value job = refl
set_column-state (some Column.seal_sha256) value job = refl
set_column-state (some Column.error_code) value job = refl
set_column-state (some Column.error_summary) value job = refl
set_column-state none value job = refl

pub set_columns-state :
    (updates : List (String × Option String)) (job : Job)
    → (set_columns updates job).state ≡ job.state
unfolding set_columns
set_columns-state [] job = refl
set_columns-state ((name, value) ∷ rest) job =
    set_columns-state rest (set_column (column_of name) value job)
    ∙ set_column-state (column_of name) value job
