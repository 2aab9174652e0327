-- ===== src/Agents/PatchGuard/Named.antt =====
-- Which files of a patch the guard of src/rex/agents/patch_guard.py looks at.
use mathlib.Core.Path.{subst}
use mathlib.Core.List.{Memᴰ}
use mathlib.Core.List.Memᴰ.{head, tail}
use Prim.Native.String.{String}
use text.Mathlib.Text.{starts_with}
use tiktok_techjam_recsys_ag.Prelude.{
  ◌≡◌, ◌≢◌, ◌⊎◌, ◌∙◌, refl, sym, ap, inl, inr, ◌==◌, string_eq, ==_refl, eq_of_==, contains, Bool,
  true, false, not, ◌||◌, Option, none, some, List, [], ◌∷◌, any, all, if◌then◌else◌, Bool-cases,
  Option-cases, arith,
}
use tiktok_techjam_recsys_ag.Prelude.Texts.{drop_chars, sorted_set, sorted_set-Mem}
use tiktok_techjam_recsys_ag.Agents.PatchGuard.{
  PatchPolicy, normalize_patch_path, Scan, start, with_old, with_path, with_new, scan_line,
  scan_lines, is_forbidden, no_paths, found_paths, changed_paths, is_permitted, check_paths,
  matches, validate_patch,
}

with_old-paths :
    (scan scan' : Scan) (path : Option (Option String))
    → with_old scan path ≡ some scan'
    → scan.paths ≡ scan'.paths
with_old-paths scan scan' none h = cc
with_old-paths scan scan' (some path) h =
    let q : record scan { old_path = path } ≡ scan' = cc in ap (λ (s : Scan). s.paths) q

with_path_keeps :
    (p : String) (scan : Scan) (new old : Option String)
    → Memᴰ p scan.paths
    → Memᴰ p (with_path scan new old).paths
with_path_keeps p scan (some new) old m = tail m
with_path_keeps p scan none (some old) m = tail m
with_path_keeps p scan none none m = m

with_new_keeps :
    (p : String) (scan scan' : Scan) (new : Option (Option String))
    → with_new scan new ≡ some scan'
    → Memᴰ p scan.paths
    → Memᴰ p scan'.paths
with_new_keeps p scan scan' none h m = cc
with_new_keeps p scan scan' (some new) h m =
    let q : with_path scan new scan.old_path ≡ scan' = cc in
    subst (λ (s : Scan). Memᴰ p s.paths) q (with_path_keeps p scan new scan.old_path m)

hunk-paths :
    (scan scan' : Scan) (b : Bool)
    → (if b then some (record scan { saw_hunk = true }) else some scan) ≡ some scan'
    → scan.paths ≡ scan'.paths
hunk-paths scan scan' true h =
    let q : record scan { saw_hunk = true } ≡ scan' = cc in ap (λ (s : Scan). s.paths) q
hunk-paths scan scan' false h = let q : scan ≡ scan' = cc in ap (λ (s : Scan). s.paths) q

scan_line_keeps :
    (p line : String) (scan scan' : Scan)
    → scan_line line scan ≡ some scan'
    → Memᴰ p scan.paths
    → Memᴰ p scan'.paths
unfolding scan_line
scan_line_keeps p line scan scan' h m = elim (Bool-cases (starts_with line "--- ")) [
  | inl old ↦
      let q = with_old-paths scan scan' (normalize_patch_path (drop_chars 4 line)) (rw old at h) in
      subst (λ ps. Memᴰ p ps) q m
  | inr apart ↦ elim (Bool-cases (starts_with line "+++ ")) [
    | inl new ↦
        with_new_keeps p scan scan' (normalize_patch_path (drop_chars 4 line))
          (rw (apart, new) at h) m
    | inr other ↦
        subst (λ ps. Memᴰ p ps)
          (hunk-paths scan scan' (starts_with line "@@") (rw (apart, other) at h)) m
  ]
]

scan_lines_keep :
    (p : String) (lines : List String) (scan scan' : Scan)
    → scan_lines lines (some scan) ≡ some scan'
    → Memᴰ p scan.paths
    → Memᴰ p scan'.paths
unfolding scan_lines
scan_lines_keep p [] scan scan' h m =
    let q : scan ≡ scan' = cc in subst (λ (s : Scan). Memᴰ p s.paths) q m
scan_lines_keep p (line ∷ lines) scan scan' h m = elim (Option-cases (scan_line line scan)) [
  | inl stopped ↦ let q : scan_lines lines none ≡ some scan' = rw (stopped, scan_lines) at h in cc
  | inr (next, done) ↦
      scan_lines_keep p lines next scan' (rw (done, scan_lines) at h)
        (scan_line_keeps p line scan next done m)
]

-- A line that names a file, once its path is normalized.
abbrev pub Names : String → String → Type 0
Names line p =
    (starts_with line "--- " ≡ false)
    × (starts_with line "+++ " ≡ true)
    × (normalize_patch_path (drop_chars 4 line) ≡ some (some p))

scan_line_names :
    (p line : String) (scan scan' : Scan)
    → Names line p
    → scan_line line scan ≡ some scan'
    → Memᴰ p scan'.paths
unfolding scan_line
scan_line_names p line scan scan' names h =
    let q : with_new scan (some (some p)) ≡ some scan' = rw (names.0, names.1, names.2) at h in
    let r : with_path scan (some p) scan.old_path ≡ scan' = cc in
    subst (λ (s : Scan). Memᴰ p s.paths) r (head refl)

scan_lines_name :
    (p line : String) (lines : List String) (scan scan' : Scan)
    → Memᴰ line lines
    → Names line p
    → scan_lines lines (some scan) ≡ some scan'
    → Memᴰ p scan'.paths
unfolding scan_lines
scan_lines_name p line [] scan scan' m names h = elim m [ ]
scan_lines_name p line (l ∷ lines) scan scan' m names h = elim (Option-cases (scan_line l scan)) [
  | inl stopped ↦ let q : scan_lines lines none ≡ some scan' = rw (stopped, scan_lines) at h in cc
  | inr (next, done) ↦ elim m [
    | head e ↦
        scan_lines_keep p lines next scan' (rw (done, scan_lines) at h)
          (scan_line_names p l scan next (subst (λ k. Names k p) e names) done)
    | tail n ↦ scan_lines_name p line lines next scan' n names (rw (done, scan_lines) at h)
  ]
]

found_paths-sorted :
    (o : Option Scan) (paths : List String)
    → found_paths o ≡ some paths
    → (scan : Scan) × (o ≡ some scan) × (sorted_set scan.paths ≡ paths)
found_paths-sorted none paths h = cc
found_paths-sorted (some scan) paths h =
    elim (Bool-cases (no_paths scan.paths || not scan.saw_hunk)) [
      | inl bad ↦ cc
      | inr good ↦
          let q : some (sorted_set scan.paths) ≡ some paths = rw good at h in (scan, refl, cc)
    ]

changed_paths-Names :
    (patch : List String) (paths : List String) (line p : String)
    → changed_paths patch ≡ some paths
    → Memᴰ line patch
    → Names line p
    → Memᴰ p paths
unfolding changed_paths
changed_paths-Names patch paths line p h m names = elim (Bool-cases (any is_forbidden patch)) [
  | inl bad ↦ cc
  | inr good ↦
      let r = found_paths-sorted (scan_lines patch (some start)) paths (rw good at h) in
      subst (λ ps. Memᴰ p ps) r.2
        (sorted_set-Mem p r.0.paths (scan_lines_name p line patch start r.0 m names r.1))
]

all-Mem :
    (q : String → Bool) (xs : List String) (x : String) → all q xs ≡ true → Memᴰ x xs → q x ≡ true
all-Mem q (y ∷ ys) x h (head e) =
    let k : q y ≡ true = ground arith in subst (λ z. q z ≡ true) (sym e) k
all-Mem q (y ∷ ys) x h (tail m) = all-Mem q ys x (ground arith) m
all-Mem q [] x h m = elim m [ ]

contains-Mem : (x : String) (xs : List String) → contains x xs ≡ true → Memᴰ x xs
contains-Mem x [] h = cc
contains-Mem x (y ∷ ys) h = elim (Bool-cases (y == x)) [
  | inl same ↦ head (sym (eq_of_== same))
  | inr other ↦ tail (contains-Mem x ys (ground arith))
]

module _ (fnmatchcase : String → String → Bool) where
  checked :
      (policy : PatchPolicy) (declared : List String) (found : Option (List String))
      (paths : List String)
      → check_paths fnmatchcase policy declared found ≡ some paths
      → (found ≡ some paths) × (all (is_permitted fnmatchcase policy declared) paths ≡ true)
  checked policy declared none paths h = cc
  checked policy declared (some given) paths h =
      elim (Bool-cases (all (is_permitted fnmatchcase policy declared) given)) [
        | inr bad ↦ cc
        | inl good ↦
            let q : some given ≡ some paths = rw good at h in
            let r : given ≡ paths = cc in
            (q, subst (λ ps. all (is_permitted fnmatchcase policy declared) ps ≡ true) r good)
      ]

  any-Mem :
      (path : String) (patterns : List String)
      → any (matches fnmatchcase path) patterns ≡ true
      → (pattern : String) × Memᴰ pattern patterns × (matches fnmatchcase path pattern ≡ true)
  any-Mem path [] h = cc
  any-Mem path (pattern ∷ patterns) h = elim (Bool-cases (matches fnmatchcase path pattern)) [
    | inl here ↦ (pattern, head refl, here)
    | inr later ↦ let (q, m, k) = any-Mem path patterns (ground arith) in (q, tail m, k)
  ]

  none-Mem :
      (path : String) (patterns : List String)
      → any (matches fnmatchcase path) patterns ≡ false
      → (pattern : String) → Memᴰ pattern patterns
      → matches fnmatchcase path pattern ≡ false
  none-Mem path [] h pattern m = elim m [ ]
  none-Mem path (q ∷ patterns) h pattern (head e) =
      let here : matches fnmatchcase path q ≡ false = ground arith in
      ap (matches fnmatchcase path) e ∙ here
  none-Mem path (q ∷ patterns) h pattern (tail m) = none-Mem path patterns (ground arith) pattern m

  -- The policy lets a patch change the file.
  abbrev pub Allowed : PatchPolicy → List String → String → Type 0
  Allowed policy declared path =
      (path ≢ ".gitmodules")
      × ((pattern : String) → Memᴰ pattern policy.denied → matches fnmatchcase path pattern ≡ false)
      × ((pattern : String) × Memᴰ pattern policy.allowed
          × (matches fnmatchcase path pattern ≡ true))
      × ((declared ≡ []) ⊎ Memᴰ path declared)

  declared-Mem :
      (policy : PatchPolicy) (declared : List String) (path : String)
      → is_permitted fnmatchcase policy declared path ≡ true
      → (declared ≡ []) ⊎ Memᴰ path declared
  declared-Mem policy [] path h = inl refl
  declared-Mem policy (d ∷ ds) path h = inr (contains-Mem path (d ∷ ds) (ground arith))

  permitted-Allowed :
      (policy : PatchPolicy) (declared : List String) (path : String)
      → is_permitted fnmatchcase policy declared path ≡ true
      → Allowed policy declared path
  permitted-Allowed policy declared path h =
      let ordinary : (path == ".gitmodules") ≡ false = ground arith in
      let denied : any (matches fnmatchcase path) policy.denied ≡ false = ground arith in
      let allowed : any (matches fnmatchcase path) policy.allowed ≡ true = ground arith in
      (
        λ e.
            let same : (path == ".gitmodules") ≡ true =
              ap (λ p. p == ".gitmodules") e ∙ ==_refl {A = String} ".gitmodules" in
            cc,
        none-Mem path policy.denied denied,
        any-Mem path policy.allowed allowed,
        declared-Mem policy declared path h,
      )

  -- When `validate_patch` accepts a patch, every file that one of its `+++` lines names, with its path
  -- normalized, is among the paths that it returns, is not .gitmodules, matches no denied pattern, matches an
  -- allowed one, and is declared where files are declared.
  pub validate_patch-Names :
      (patch : List String) (policy : PatchPolicy) (declared paths : List String) (line p : String)
      → validate_patch fnmatchcase patch policy declared ≡ some paths
      → Memᴰ line patch
      → Names line p
      → Memᴰ p paths × Allowed policy declared p
  unfolding validate_patch
  validate_patch-Names patch policy declared paths line p h m names =
      let r = checked policy declared (changed_paths patch) paths h in
      let k = changed_paths-Names patch paths line p r.0 m names in
      (
        k,
        permitted-Allowed policy declared p
            (all-Mem (is_permitted fnmatchcase policy declared) paths p r.1 k),
      )
