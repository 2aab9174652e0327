-- ===== src/Tests/Patches.antt =====
-- A patch that moves a protected file, before src/rex/agents/patch_guard.py.
use mathlib.Core.List.{Memᴰ}
use mathlib.Core.List.Memᴰ.{head, tail}
use Prim.Native.String.{String}
use tiktok_techjam_recsys_ag.Prelude.{
  ◌≡◌, refl, Bool, some, List, [], ◌∷◌, ◌==◌, string_eq, String-discrete, ℕ_discrete, filter_by,
}
use tiktok_techjam_recsys_ag.Prelude.Texts.{drop_chars, first_chars, sorted_set}
use tiktok_techjam_recsys_ag.Agents.PatchGuard.{
  PatchPolicy, normalize_patch_path, scan_line, scan_lines, changed_paths, matches, validate_patch,
}
use tiktok_techjam_recsys_ag.Agents.PatchGuard.Named.{Names, Allowed, validate_patch-Names}
use tiktok_techjam_recsys_ag.Agents.PatchGuard.Renames.{
  Leaves, AllSilent, file_patch, validate_patch-unread,
}

abbrev equal_names : String → String → Bool
equal_names path pattern = path == pattern

abbrev policy : PatchPolicy
policy = record {
  allowed = "src/rex/models/experimental/**" ∷ [];
  denied = "src/rex/contracts.py" ∷ "src/rex/store/**" ∷ [];
}

abbrev protected_line : String
protected_line = "--- a/src/rex/contracts.py"

abbrev plain_line : String
plain_line = "--- a/src/rex/models/experimental/m.py"

abbrev new_line : String
new_line = "+++ b/src/rex/models/experimental/m.py"

abbrev new_path : String
new_path = "src/rex/models/experimental/m.py"

abbrev rest : List String
rest = "@@ -1 +1 @@" ∷ "-x = 1" ∷ "+x = 2" ∷ []

new_line-Names : Names new_line new_path
unfolding normalize_patch_path drop_chars filter_by String-discrete ℕ_discrete
new_line-Names = (refl, refl, refl)

protected-Leaves : Leaves protected_line
unfolding normalize_patch_path drop_chars filter_by String-discrete ℕ_discrete
protected-Leaves = (refl, refl, (some "src/rex/contracts.py", refl))

plain-Leaves : Leaves plain_line
unfolding normalize_patch_path drop_chars filter_by String-discrete ℕ_discrete
plain-Leaves = (refl, refl, (some new_path, refl))

-- What `git diff` writes before the two lines of a file that moves, and of one that stays.
abbrev rename_header : List String
rename_header =
    "diff --git a/src/rex/contracts.py b/src/rex/models/experimental/m.py" ∷ "similarity index 90%"
    ∷ "rename from src/rex/contracts.py" ∷ "rename to src/rex/models/experimental/m.py" ∷ []

abbrev plain_header : List String
plain_header =
    "diff --git a/src/rex/models/experimental/m.py b/src/rex/models/experimental/m.py" ∷ []

abbrev rename_patch : List String
rename_patch = file_patch rename_header protected_line [] new_line rest

rename-AllSilent : AllSilent rename_header
rename-AllSilent = (
  (refl, refl, refl, refl),
  ((refl, refl, refl, refl), ((refl, refl, refl, refl), ((refl, refl, refl, refl), tt))),
)

plain-AllSilent : AllSilent plain_header
plain-AllSilent = ((refl, refl, refl, refl), tt)

-- The protected file leaves, and the patch is accepted.
accepted : validate_patch equal_names rename_patch policy (new_path ∷ []) ≡ some (new_path ∷ [])
unfolding validate_patch changed_paths scan_lines scan_line normalize_patch_path matches drop_chars
    first_chars filter_by sorted_set String-discrete ℕ_discrete
accepted = refl

validate_patch-unread_example :
    validate_patch equal_names rename_patch policy (new_path ∷ [])
    ≡ validate_patch equal_names
        (file_patch plain_header plain_line [] new_line rest)
        policy
        (new_path ∷ [])
validate_patch-unread_example =
    validate_patch-unread equal_names policy (new_path ∷ []) [] rename_header plain_header
      protected_line plain_line [] new_line new_path rest rename-AllSilent plain-AllSilent tt
      protected-Leaves plain-Leaves new_line-Names refl

new_line-Mem : Memᴰ new_line rename_patch
new_line-Mem = tail (tail (tail (tail (tail (head refl)))))

validate_patch-Names_example :
    Memᴰ new_path (new_path ∷ []) × Allowed equal_names policy (new_path ∷ []) new_path
validate_patch-Names_example =
    validate_patch-Names equal_names rename_patch policy (new_path ∷ []) (new_path ∷ []) new_line
      new_path accepted new_line-Mem new_line-Names
