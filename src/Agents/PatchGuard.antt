-- ===== src/Agents/PatchGuard.antt =====
-- src/rex/agents/patch_guard.py: the paths that a unified diff names, and the policy on them. A patch is the
-- list of its lines, and `none` is a PatchRejected. `fnmatch.fnmatchcase` is a parameter.
pub mod Named
pub mod Renames
use Prim.Native.Nat.{ℕ, ◌-◌}
use Prim.Native.Char.{Char, code}
use Prim.Native.String.{String, count, ◌++◌ as join, [] as empty_text, ◌∷◌ as char_first}
use text.Mathlib.Text.{starts_with, find?}
use tiktok_techjam_recsys_ag.Prelude.{
  ◌≡◌, Bool, true, false, not, ◌&&◌, ◌||◌, Option, none, some, List, [], ◌∷◌, ◌==◌, string_eq,
  nat_eq, leb, contains, any, all, is_some, if◌then◌else◌, filter_by,
}
use tiktok_techjam_recsys_ag.Prelude.Texts.{first_chars, drop_chars, last_chars, sorted_set}

pub record PatchPolicy : Type 0 where
  pub allowed : List String
  pub denied : List String

-- The ASCII characters that `str.strip` takes away.
abbrev is_space : Char → Bool
is_space c = (leb 9 (code c) && leb (code c) 13) || (leb 28 (code c) && leb (code c) 32)

abbrev skip_spaces : String → String
skip_spaces empty_text = empty_text
skip_spaces (char_first c s) = if is_space c then skip_spaces s else char_first c s

abbrev drop_spaces : String → String
drop_spaces empty_text = empty_text
drop_spaces (char_first c s) =
    let rest = drop_spaces s in if rest == "" && is_space c then empty_text else char_first c rest

abbrev strip : String → String
strip s = drop_spaces (skip_spaces s)

abbrev onto_first : Char → List String → List String
onto_first c [] = char_first c empty_text ∷ []
onto_first c (s ∷ ss) = char_first c s ∷ ss

-- `s.split(c)`, for the character of a number
abbrev split : ℕ → String → List String
split k empty_text = empty_text ∷ []
split k (char_first c s) =
    let rest = split k s in if code c == k then empty_text ∷ rest else onto_first c rest

abbrev first_part : List String → String
first_part [] = ""
first_part (s ∷ _) = s

-- `PurePosixPath(value).parts`, without the root
abbrev parts : String → List String
parts value = filter_by (λ part. not (part == "" || part == ".")) (split 47 value)

abbrev join_parts : List String → String
join_parts [] = ""
join_parts (s ∷ []) = s
join_parts (s ∷ t ∷ ts) = join s (join "/" (join_parts (t ∷ ts)))

-- `PurePosixPath(value).as_posix()`, for a relative path
abbrev as_posix : String → String
as_posix value = if join_parts (parts value) == "" then "." else join_parts (parts value)

-- `_normalize_patch_path`; the inner `none` is the null device.
unfoldable pub normalize_patch_path : String → Option (Option String)
unfolding filter_by drop_chars
normalize_patch_path raw =
    let given = strip (first_part (split 9 raw)) in
    let value =
      if starts_with given "a/" || starts_with given "b/" then drop_chars 2 given else given in
    if given == "/dev/null"
    then some none
    else if starts_with value "/" || contains ".." (parts value) || value == ""
    then none
    else some (some (as_posix value))

-- The variables of the loop of `changed_paths`.
pub record Scan : Type 0 where
  pub paths : List String
  pub old_path : Option String
  pub saw_hunk : Bool

abbrev pub start : Scan
start = record { paths = []; old_path = none; saw_hunk = false }

abbrev pub with_old : Scan → Option (Option String) → Option Scan
with_old scan none = none
with_old scan (some path) = some (record scan { old_path = path })

-- `new_path or old_path`
abbrev pub with_path : Scan → Option String → Option String → Scan
with_path scan (some new) old = record scan { paths = new ∷ scan.paths }
with_path scan none (some old) = record scan { paths = old ∷ scan.paths }
with_path scan none none = scan

abbrev pub with_new : Scan → Option (Option String) → Option Scan
with_new scan none = none
with_new scan (some new) = some (with_path scan new scan.old_path)

unfoldable pub scan_line : String → Scan → Option Scan
scan_line line scan =
    if starts_with line "--- "
    then with_old scan (normalize_patch_path (drop_chars 4 line))
    else if starts_with line "+++ "
    then with_new scan (normalize_patch_path (drop_chars 4 line))
    else if starts_with line "@@"
    then some (record scan { saw_hunk = true })
    else some scan

unfoldable pub scan_lines : List String → Option Scan → Option Scan
scan_lines lines none = none
scan_lines [] (some scan) = some scan
scan_lines (line ∷ lines) (some scan) = scan_lines lines (scan_line line scan)

-- The texts that a patch must not have.
abbrev pub is_forbidden : String → Bool
is_forbidden line =
    is_some (find? line "GIT binary patch")
    || is_some (find? line "Binary files ")
    || is_some (find? line "new file mode 120000")
    || is_some (find? line "old mode 120000")

abbrev pub no_paths : List String → Bool
no_paths [] = true
no_paths (_ ∷ _) = false

abbrev pub found_paths : Option Scan → Option (List String)
found_paths none = none
found_paths (some scan) =
    if no_paths scan.paths || not scan.saw_hunk then none else some (sorted_set scan.paths)

unfoldable pub changed_paths : List String → Option (List String)
changed_paths patch =
    if any is_forbidden patch then none else found_paths (scan_lines patch (some start))

module _ (fnmatchcase : String → String → Bool) where
  -- `_matches`
  unfoldable pub matches : String → String → Bool
  matches path pattern =
      if last_chars 3 pattern == "/**"
      then path == first_chars (count pattern - 3) pattern
        || starts_with path (first_chars (count pattern - 2) pattern)
      else fnmatchcase path pattern

  -- The checks of one path.
  abbrev pub is_permitted : PatchPolicy → List String → String → Bool
  is_permitted policy declared path =
      not (path == ".gitmodules")
      && not (any (matches path) policy.denied)
      && any (matches path) policy.allowed
      && (none_declared declared || contains path declared)
    where
      none_declared : List String → Bool
      none_declared [] = true
      none_declared (_ ∷ _) = false

  abbrev pub check_paths : PatchPolicy → List String → Option (List String) → Option (List String)
  check_paths policy declared none = none
  check_paths policy declared (some paths) =
      if all (is_permitted policy declared) paths then some paths else none

  unfoldable pub validate_patch : List String → PatchPolicy → List String → Option (List String)
  validate_patch patch policy declared = check_paths policy declared (changed_paths patch)
