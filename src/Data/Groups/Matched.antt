-- ===== src/Data/Groups/Matched.antt =====
-- Lists of rows that are matched one by one, as the samples of src/rex/data/groups.py are.
use mathlib.Core.List.{Memᴰ}
use mathlib.Core.List.Memᴰ.{head, tail}
use tiktok_techjam_recsys_ag.Prelude.{
  ℕ, zero, suc, ◌≡◌, ◌<◌, refl, List, [], ◌∷◌, ◌++◌, string_eq, nat_eq, length, map, arith,
}
use tiktok_techjam_recsys_ag.Data.Groups.{nth, concatenate}

-- Two lists are matched, member by member.
abbrev pub Matched : (ℕ → ℕ → Type 0) → List ℕ → List ℕ → Type 0
Matched P [] [] = Unit
Matched P (x ∷ xs) (y ∷ ys) = P x y × Matched P xs ys
Matched P _ _ = ⊥

module _ (P : ℕ → ℕ → Type 0) where
  Matched-append :
      (xs ys zs ws : List ℕ) → Matched P xs ys → Matched P zs ws → Matched P (xs ++ zs) (ys ++ ws)
  Matched-append [] [] zs ws m n = n
  Matched-append [] (y ∷ ys) zs ws m n = elim m [ ]
  Matched-append (x ∷ xs) [] zs ws m n = elim m [ ]
  Matched-append (x ∷ xs) (y ∷ ys) zs ws m n = (m.0, Matched-append xs ys zs ws m.1 n)

  pub Matched-nth :
      (xs ys : List ℕ) (k : ℕ) → Matched P xs ys → k < length xs → P (nth xs k) (nth ys k)
  Matched-nth [] ys k m l = absurd (omega arith)
  Matched-nth (x ∷ xs) [] k m l = elim m [ ]
  Matched-nth (x ∷ xs) (y ∷ ys) zero m l = m.0
  Matched-nth (x ∷ xs) (y ∷ ys) (suc k) m l = Matched-nth xs ys k m.1 (omega (arith, l))

  pub Matched-all :
      (xs ys : List ℕ)
      → length xs ≡ length ys
      → ((a b : ℕ) → Memᴰ a xs → Memᴰ b ys → P a b)
      → Matched P xs ys
  Matched-all [] [] e h = tt
  Matched-all [] (y ∷ ys) e h = absurd (omega (arith, e))
  Matched-all (x ∷ xs) [] e h = absurd (omega (arith, e))
  Matched-all (x ∷ xs) (y ∷ ys) e h = (
    h x y (head refl) (head refl),
    Matched-all xs ys (omega (arith, e)) (λ a b m n. h a b (tail m) (tail n)),
  )

  pub Matched-map :
      (f g : ℕ → ℕ) (ks : List ℕ)
      → ((k : ℕ) → Memᴰ k ks → P (f k) (g k))
      → Matched P (map f ks) (map g ks)
  Matched-map f g [] h = tt
  Matched-map f g (k ∷ ks) h = (h k (head refl), Matched-map f g ks (λ j m. h j (tail m)))

  -- Lists of such lists.
  abbrev pub AllMatched : List (List ℕ) → List (List ℕ) → Type 0
  AllMatched [] [] = Unit
  AllMatched (xs ∷ xss) (ys ∷ yss) = Matched P xs ys × AllMatched xss yss
  AllMatched _ _ = ⊥

  pub AllMatched-concatenate :
      (xss yss : List (List ℕ)) → AllMatched xss yss → Matched P (concatenate xss) (concatenate yss)
  AllMatched-concatenate [] [] m = tt
  AllMatched-concatenate [] (ys ∷ yss) m = elim m [ ]
  AllMatched-concatenate (xs ∷ xss) [] m = elim m [ ]
  AllMatched-concatenate (xs ∷ xss) (ys ∷ yss) m =
      Matched-append xs ys (concatenate xss) (concatenate yss) m.0
        (AllMatched-concatenate xss yss m.1)

  pub AllMatched-snoc :
      (xss yss : List (List ℕ)) (xs ys : List ℕ)
      → AllMatched xss yss
      → Matched P xs ys
      → AllMatched (xss ++ xs ∷ []) (yss ++ ys ∷ [])
  AllMatched-snoc [] [] xs ys m n = (n, tt)
  AllMatched-snoc [] (ys ∷ yss) xs zs m n = elim m [ ]
  AllMatched-snoc (xs ∷ xss) [] ys zs m n = elim m [ ]
  AllMatched-snoc (xs ∷ xss) (ys ∷ yss) zs ws m n = (m.0, AllMatched-snoc xss yss zs ws m.1 n)
