-- ===== src/Agents/PatchGuard/Renames.antt =====
-- What the guard of src/rex/agents/patch_guard.py makes of the `---` line of a file.
use Prim.Native.String.{String}
use text.Mathlib.Text.{starts_with}
use tiktok_techjam_recsys_ag.Prelude.{
  ◌≡◌, refl, sym, ap, ◌∙◌, inl, inr, Bool, true, false, not, Option, none, some, List, [], ◌∷◌,
  ◌++◌, ◌&&◌, ◌||◌, if◌then◌else◌, any, Bool-cases, arith,
}
use tiktok_techjam_recsys_ag.Prelude.Texts.{drop_chars}
use tiktok_techjam_recsys_ag.Agents.PatchGuard.{
  PatchPolicy, normalize_patch_path, Scan, start, with_old, scan_line, scan_lines, is_forbidden,
  found_paths, changed_paths, check_paths, validate_patch,
}
use tiktok_techjam_recsys_ag.Agents.PatchGuard.Named.{Names}

-- A scan with another old path.
abbrev other_old : Option String → Scan → Scan
other_old old scan = record scan { old_path = old }

-- A `---` line comes before every `+++` line.
abbrev pub is_headed : List String → Bool
is_headed [] = true
is_headed (line ∷ lines) =
    let rest = is_headed lines in
    if starts_with line "--- " then true else (not (starts_with line "+++ ") && rest)

-- The old path is read by a `+++` line alone.
old_unread :
    (lines : List String) (scan : Scan) (old : Option String)
    → is_headed lines ≡ true
    → found_paths (scan_lines lines (some scan))
      ≡ found_paths (scan_lines lines (some (other_old old scan)))
unfolding scan_lines scan_line
old_unread [] scan old h = refl
old_unread (line ∷ lines) scan old h = elim (Bool-cases (starts_with line "--- ")) [
  | inl starts ↦
      rw (starts, scan_lines, scan_line) (after (normalize_patch_path (drop_chars 4 line)))
  | inr apart ↦ elim (Bool-cases (starts_with line "+++ ")) [
    | inl named ↦ cc
    | inr other ↦ elim (Bool-cases (starts_with line "@@")) [
      | inl hunk ↦
          rw (apart, other, hunk, scan_lines, scan_line)
            (old_unread lines (record scan { saw_hunk = true }) old (ground arith))
      | inr text_line ↦
          rw (apart, other, text_line, scan_lines, scan_line)
            (old_unread lines scan old (ground arith))
    ]
  ]
]
  where
    after :
        (path : Option (Option String))
        → found_paths (scan_lines lines (with_old scan path))
          ≡ found_paths (scan_lines lines (with_old (other_old old scan) path))
    after none = refl
    after (some path) = refl

-- A `---` line with a path that may be named.
abbrev pub Leaves : String → Type 0
Leaves line =
    (starts_with line "--- " ≡ true)
    × (is_forbidden line ≡ false)
    × ((p : Option String) × (normalize_patch_path (drop_chars 4 line) ≡ some p))

-- A line that the guard passes over, such as `diff --git` and the headers of a rename.
abbrev pub IsSilent : String → Type 0
IsSilent line =
    (starts_with line "--- " ≡ false)
    × (starts_with line "+++ " ≡ false)
    × (starts_with line "@@" ≡ false)
    × (is_forbidden line ≡ false)

abbrev pub AllSilent : List String → Type 0
AllSilent [] = Unit
AllSilent (line ∷ lines) = IsSilent line × AllSilent lines

silent_line : (line : String) (scan : Scan) → IsSilent line → scan_line line scan ≡ some scan
unfolding scan_line
silent_line line scan h = rw (h.0, h.1, h.2) refl

silent_scan : (lines : List String) (o : Option Scan) → AllSilent lines → scan_lines lines o ≡ o
unfolding scan_lines
silent_scan lines none h = refl
silent_scan [] (some scan) h = refl
silent_scan (line ∷ lines) (some scan) h =
    ap (scan_lines lines) (silent_line line scan h.0) ∙ silent_scan lines (some scan) h.1

scan-append :
    (xs ys : List String) (o : Option Scan)
    → scan_lines (xs ++ ys) o ≡ scan_lines ys (scan_lines xs o)
unfolding scan_lines
scan-append xs ys none = refl
scan-append [] ys (some scan) = refl
scan-append (x ∷ xs) ys (some scan) = scan-append xs ys (scan_line x scan)

left_line :
    (left : String) (scan : Scan) (leaves : Leaves left)
    → scan_line left scan ≡ some (record scan { old_path = leaves.2.0 })
unfolding scan_line
left_line left scan leaves = rw (leaves.0, leaves.2.1) refl

new_line :
    (new p : String) (scan : Scan)
    → Names new p
    → scan_line new scan ≡ some (record scan { paths = p ∷ scan.paths })
unfolding scan_line
new_line new p scan names = rw (names.0, names.1, names.2) refl

-- A file of a patch: the lines that head it, its two paths, and what follows them.
abbrev pub file_patch : List String → String → List String → String → List String → List String
file_patch header left between new rest = header ++ left ∷ (between ++ new ∷ rest)

module _ (between rest : List String) (new p : String) (quiet : AllSilent between)
    (names : Names new p) (headed : is_headed rest ≡ true) where
  -- The guard reads the two lines: the new path is taken, the old one remembered.
  two_lines :
      (header : List String) (left : String) (scan : Scan) (leaves : Leaves left)
      → AllSilent header
      → scan_lines (file_patch header left between new rest) (some scan)
        ≡ scan_lines rest (
            some
              (record { paths = p ∷ scan.paths; old_path = leaves.2.0; saw_hunk = scan.saw_hunk }))
  unfolding scan_lines
  two_lines header left scan leaves silent =
      scan-append header (left ∷ (between ++ new ∷ rest)) (some scan)
      ∙ ap (scan_lines (left ∷ (between ++ new ∷ rest))) (silent_scan header (some scan) silent)
      ∙ ap (scan_lines (between ++ new ∷ rest)) (left_line left scan leaves)
      ∙ scan-append between (new ∷ rest) (some (record scan { old_path = leaves.2.0 }))
      ∙ ap (scan_lines (new ∷ rest))
          (silent_scan between (some (record scan { old_path = leaves.2.0 })) quiet)
      ∙ ap (scan_lines rest) (new_line new p (record scan { old_path = leaves.2.0 }) names)

  found-unread :
      (header header' : List String) (left left' : String) (o : Option Scan)
      → AllSilent header
      → AllSilent header'
      → Leaves left
      → Leaves left'
      → found_paths (scan_lines (file_patch header left between new rest) o)
        ≡ found_paths (scan_lines (file_patch header' left' between new rest) o)
  unfolding scan_lines
  found-unread header header' left left' none silent silent' leaves leaves' = refl
  found-unread header header' left left' (some scan) silent silent' leaves leaves' =
      ap found_paths (two_lines header left scan leaves silent)
      ∙ old_unread rest
          (record { paths = p ∷ scan.paths; old_path = leaves.2.0; saw_hunk = scan.saw_hunk })
          leaves'.2.0 headed
      ∙ sym (ap found_paths (two_lines header' left' scan leaves' silent'))

any-append :
    (xs ys : List String)
    → any is_forbidden (xs ++ ys) ≡ (any is_forbidden xs || any is_forbidden ys)
any-append [] ys = refl
any-append (x ∷ xs) ys = ground (arith, any-append xs ys)

silent-any :
    (header : List String) (left : String) (tail_ : List String)
    → AllSilent header
    → is_forbidden left ≡ false
    → any is_forbidden (header ++ left ∷ tail_) ≡ any is_forbidden tail_
silent-any [] left tail_ h fair = rw fair refl
silent-any (x ∷ header) left tail_ h fair = rw h.0.3 (silent-any header left tail_ h.1 fair)

changed_paths-unread :
    (before header header' : List String) (left left' : String) (between : List String)
    (new p : String) (rest : List String)
    → AllSilent header
    → AllSilent header'
    → AllSilent between
    → Leaves left
    → Leaves left'
    → Names new p
    → is_headed rest ≡ true
    → changed_paths (before ++ file_patch header left between new rest)
      ≡ changed_paths (before ++ file_patch header' left' between new rest)
unfolding changed_paths
changed_paths-unread before header header' left left' between new p rest silent silent' quiet leaves
      leaves' names headed =
    let one = file_patch header left between new rest in
    let two = file_patch header' left' between new rest in
    let same : found_paths (scan_lines (before ++ one) (some start))
        ≡ found_paths (scan_lines (before ++ two) (some start)) =
      ap found_paths (scan-append before one (some start))
      ∙ found-unread between rest new p quiet names headed header header' left left'
          (scan_lines before (some start)) silent silent' leaves leaves'
      ∙ sym (ap found_paths (scan-append before two (some start))) in
    rw
      (
        any-append before one,
        any-append before two,
        silent-any header left (between ++ new ∷ rest) silent leaves.1,
        silent-any header' left' (between ++ new ∷ rest) silent' leaves'.1,
        same,
      )
      refl

-- In any patch, for a file whose `+++` line names a path, the path of the `---` line plays no part, nor do
-- the lines of its header, which may name it as well (`diff --git`, `rename from`): `validate_patch` answers
-- the same whichever path stands there that may be named, protected or not. No other `---` or `+++` line or
-- hunk stands in the header or between the two lines, and a `---` line comes before each later `+++` line.
pub validate_patch-unread :
    (fnmatchcase : String → String → Bool) (policy : PatchPolicy) (declared : List String)
    (before header header' : List String) (left left' : String) (between : List String)
    (new p : String) (rest : List String)
    → AllSilent header
    → AllSilent header'
    → AllSilent between
    → Leaves left
    → Leaves left'
    → Names new p
    → is_headed rest ≡ true
    → validate_patch fnmatchcase (before ++ file_patch header left between new rest) policy declared
      ≡ validate_patch fnmatchcase
          (before ++ file_patch header' left' between new rest)
          policy
          declared
unfolding validate_patch
validate_patch-unread fnmatchcase policy declared before header header' left left' between new p
      rest silent silent' quiet leaves leaves' names headed =
    ap (check_paths fnmatchcase policy declared) (
      changed_paths-unread before header header' left left' between new p rest silent silent' quiet
        leaves leaves' names headed)
