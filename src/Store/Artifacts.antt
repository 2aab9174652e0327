-- ===== src/Store/Artifacts.antt =====
-- src/rex/store/repository.py: `register_artifact`.
use Prim.Native.String.{◌++◌ as join}
use tiktok_techjam_recsys_ag.Prelude.{
  ℕ, Bool, ◌&&◌, ◌||◌, Option, none, some, String, ◌==◌, string_eq, option_eq, nat_eq,
  if◌then◌else◌,
}
use tiktok_techjam_recsys_ag.Prelude.Table.{get, put}
use tiktok_techjam_recsys_ag.Result.{
  Result, ok, repository_error, integrity_error, ◌>>=◌, ◌>>◌, require, require_some, on_row,
}
use tiktok_techjam_recsys_ag.Store.Documents.{end, field, text, text_or_null}
use tiktok_techjam_recsys_ag.Store.Schema.{Artifact, ArtifactLink, Db}
use tiktok_techjam_recsys_ag.Store.Events.{Env, emit}
use tiktok_techjam_recsys_ag.Store.Experiments.{references}

-- The contract `ArtifactRef`.
pub record ArtifactRef : Type 0 where
  pub artifact_id : String
  pub kind : String
  pub path : String
  pub sha256 : String
  pub size_bytes : ℕ
  pub schema_version : String

-- `value or ''`
abbrev or_empty : Option String → String
or_empty none = ""
or_empty (some s) = s

-- `if value:` on an optional text: NULL and the empty text are false.
abbrev truthy : Option String → Option String
truthy none = none
truthy (some s) = if s == "" then none else some s

-- f"{artifact_id}\0{experiment_id or ''}\0{attempt_id or ''}\0{path}"; `separator` is the NUL.
unfoldable pub provenance : String → ArtifactRef → Option String → Option String → String
provenance separator ref experiment_id attempt_id = join ref.artifact_id (
    join separator (
      join (or_empty experiment_id)
        (join separator (join (or_empty attempt_id) (join separator ref.path)))))

-- The experiment of the call: the attempt's, when one is given.
unfoldable pub attempt_owner : Option String → Option String → Db → Result (Option String)
attempt_owner attempt_id experiment_id db =
    on_row (truthy attempt_id)
      (λ key. do
        attempt ← require_some (get key db.attempts) (repository_error "unknown attempt")
        require (experiment_id == none || experiment_id == some attempt.experiment_id)
            (repository_error "artifact attempt belongs to another experiment")
        ok (some attempt.experiment_id))
      (ok experiment_id)

-- The run of the experiment, if it has an id: an empty one is false where the event is written.
unfoldable pub owner_run : Option String → Db → Result (Option String)
owner_run experiment_id db =
    on_row (truthy experiment_id)
      (λ key. do
        row ← require_some (get key db.experiments) (repository_error "unknown experiment")
        ok (truthy (some row.run_id)))
      (ok none)

abbrev same_content : ArtifactRef → Artifact → Bool
same_content ref row =
    row.kind == ref.kind
    && row.sha256 == ref.sha256
    && row.size_bytes == ref.size_bytes
    && row.schema_version == ref.schema_version

abbrev same_link : ArtifactRef → Option String → Option String → ArtifactLink → Bool
same_link ref experiment_id attempt_id row =
    row.artifact_id == ref.artifact_id
    && row.experiment_id == experiment_id
    && row.attempt_id == attempt_id
    && row.artifact_path == some ref.path

-- The REFERENCES constraints of a row that names an experiment and an attempt.
abbrev pub owners_exist : Option String → Option String → Db → Bool
owners_exist experiment_id attempt_id db =
    references (λ key. get key db.experiments) experiment_id
    && references (λ key. get key db.attempts) attempt_id

-- The row of the content: inserted once, and identical ever after.
unfoldable pub store_content : Env → ArtifactRef → Option String → Option String → Db → Result Db
store_content env ref experiment_id attempt_id db =
    on_row (get ref.artifact_id db.artifacts)
      (λ existing. do
        require (same_content ref existing) (repository_error "conflicting replay for artifact")
        ok db)
      (do
        require (owners_exist experiment_id attempt_id db) integrity_error
        let row : Artifact = record {
          experiment_id = experiment_id;
          attempt_id = attempt_id;
          kind = ref.kind;
          path = ref.path;
          sha256 = ref.sha256;
          size_bytes = ref.size_bytes;
          schema_version = ref.schema_version;
          created_at = env.now;
        }
        ok (record db { artifacts = put ref.artifact_id row db.artifacts }))

unfoldable pub announce :
    Env → Option String → String → ArtifactRef → Option String → Option String → Db → Db
announce env none link_id ref experiment_id attempt_id db = db
announce env (some run_id) link_id ref experiment_id attempt_id db =
    emit env run_id "artifact.registered" link_id
      (field "artifact_id" (text ref.artifact_id) (
        field "experiment_id" (text_or_null experiment_id) (
          field "attempt_id" (text_or_null attempt_id)
            (field "kind" (text ref.kind) (field "sha256" (text ref.sha256) end)))))
      db

-- The link of the content to its experiment and attempt: inserted once, announced if it has a run.
unfoldable pub link_artifact :
    Env
    → String
    → ArtifactRef
    → Option String
    → Option String
    → Option String
    → Db
    → Result (String × Db)
unfolding provenance announce
link_artifact env separator ref owner attempt_id run_id db = do
  let link_id = join "artifact-link-" (env.text_digest (provenance separator ref owner attempt_id))
  on_row (get link_id db.artifact_links)
      (λ link. do
        require (same_link ref owner attempt_id link)
            (repository_error "conflicting replay for artifact link")
        ok (link_id, db))
      (do
        require (owners_exist owner attempt_id db) integrity_error
        let row : ArtifactLink = record {
          artifact_id = ref.artifact_id;
          experiment_id = owner;
          attempt_id = attempt_id;
          artifact_path = some ref.path;
          created_at = env.now;
        }
        ok (
          link_id,
          announce env run_id link_id ref owner attempt_id
              (record db { artifact_links = put link_id row db.artifact_links }),
        ))

-- Returns the id of the link. The second argument is the NUL separator of the provenance text.
unfoldable pub register_artifact :
    Env → String → ArtifactRef → Option String → Option String → Db → Result (String × Db)
register_artifact env separator ref experiment_id attempt_id db = do
  owner ← attempt_owner attempt_id experiment_id db
  run_id ← owner_run owner db
  db' ← store_content env ref owner attempt_id db
  link_artifact env separator ref owner attempt_id run_id db'
