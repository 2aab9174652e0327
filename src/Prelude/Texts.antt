-- ===== src/Prelude/Texts.antt =====
-- Python's `sorted(set(xs))` on texts, and slices by characters.
use Prim.Native.Nat.{ℕ, zero, suc, ◌-◌, Ordering}
use Prim.Native.String.{String, compare, count, [] as empty_text, ◌∷◌ as char_first}
use Prim.Native.Char.{Char, code}
use tiktok_techjam_recsys_ag.Prelude.Tests.{if◌then◌else◌, ◌==◌, nat_eq}
use mathlib.Core.Path.{◌≡◌, refl, sym, subst}
use mathlib.Core.Logic.{◌⊎◌, inl, inr}
use mathlib.Core.List.{Memᴰ, List, [], ◌∷◌}
use mathlib.Core.List.Memᴰ.{head, tail}
use text.Mathlib.TextEquality.{eq_iff}
use mathlib.Core.Bool.{Bool, true, false}

insert_text : String → List String → List String
insert_text s [] = s ∷ []
insert_text s (t ∷ ts) = elim (compare s t) [
  | Ordering.lt ↦ s ∷ t ∷ ts
  | Ordering.eq ↦ t ∷ ts
  | Ordering.gt ↦ t ∷ insert_text s ts
]

unfoldable pub sorted_set : List String → List String
unfolding insert_text
sorted_set [] = []
sorted_set (s ∷ ss) = insert_text s (sorted_set ss)

-- `s[:n]`
unfoldable pub first_chars : ℕ → String → String
first_chars zero s = empty_text
first_chars (suc n) empty_text = empty_text
first_chars (suc n) (char_first c s) = char_first c (first_chars n s)

-- `s[n:]`
unfoldable pub drop_chars : ℕ → String → String
drop_chars zero s = s
drop_chars (suc n) empty_text = empty_text
drop_chars (suc n) (char_first c s) = drop_chars n s

-- `s[-n:]`, for n above 0
abbrev pub last_chars : ℕ → String → String
last_chars n s = drop_chars (count s - n) s

-- `s < t` on texts
abbrev pub text_ltb : String → String → Bool
text_ltb s t = elim (compare s t) [ Ordering.lt ↦ true | Ordering.eq ↦ false | Ordering.gt ↦ false ]

-- The character of the second text that stands where the first one has the given character.
abbrev exchange : Char → String → String → Char
exchange c (char_first from froms) (char_first to tos) =
    if code c == code from then to else exchange c froms tos
exchange c _ _ = c

-- `s.lower()`, on ASCII texts
unfoldable pub lower : String → String
lower empty_text = empty_text
lower (char_first c s) =
    char_first (exchange c "ABCDEFGHIJKLMNOPQRSTUVWXYZ" "abcdefghijklmnopqrstuvwxyz") (lower s)

-- The members of a list are those of its sorted set.
compare-eq : (s t : String) → compare s t ≡ Ordering.eq → s ≡ t
compare-eq s t h = (eq_iff s t).0 (rw h refl)

insert-Mem : (s : String) (ts : List String) → Memᴰ s (insert_text s ts)
unfolding insert_text
insert-Mem s [] = head refl
insert-Mem s (t ∷ ts) = split (compare s t) refl (insert-Mem s ts)
  where
    split :
        (o : Ordering)
        → compare s t ≡ o
        → Memᴰ s (insert_text s ts)
        → Memᴰ s (elim o [
          | Ordering.lt ↦ s ∷ t ∷ ts
          | Ordering.eq ↦ t ∷ ts
          | Ordering.gt ↦ t ∷ insert_text s ts
        ])
    split Ordering.lt h m = head refl
    split Ordering.eq h m = head (compare-eq s t h)
    split Ordering.gt h m = tail m

kept_split :
    (x s t : String) (ts : List String) (o : Ordering)
    → Memᴰ x (t ∷ ts)
    → (x ≡ t) ⊎ Memᴰ x (insert_text s ts)
    → Memᴰ x (elim o [
      | Ordering.lt ↦ s ∷ t ∷ ts
      | Ordering.eq ↦ t ∷ ts
      | Ordering.gt ↦ t ∷ insert_text s ts
    ])
kept_split x s t ts Ordering.lt m k = tail m
kept_split x s t ts Ordering.eq m k = m
kept_split x s t ts Ordering.gt m (inl e) = head e
kept_split x s t ts Ordering.gt m (inr n) = tail n

insert_keeps : (x s : String) (ts : List String) → Memᴰ x ts → Memᴰ x (insert_text s ts)
unfolding insert_text
insert_keeps x s [] m = tail m
insert_keeps x s (t ∷ ts) (head e) = kept_split x s t ts (compare s t) (head e) (inl e)
insert_keeps x s (t ∷ ts) (tail n) =
    kept_split x s t ts (compare s t) (tail n) (inr (insert_keeps x s ts n))

pub sorted_set-Mem : (x : String) (ts : List String) → Memᴰ x ts → Memᴰ x (sorted_set ts)
unfolding sorted_set
sorted_set-Mem x (t ∷ ts) (head e) =
    subst (λ y. Memᴰ y (insert_text t (sorted_set ts))) (sym e) (insert-Mem t (sorted_set ts))
sorted_set-Mem x (t ∷ ts) (tail n) = insert_keeps x t (sorted_set ts) (sorted_set-Mem x ts n)
sorted_set-Mem x [] m = elim m [ ]
