-- ===== src/Data/Orders.antt =====
-- An order of the rows of an array has each of its positions.
use mathlib.Core.List.{Memᴰ, Permᴰ}
use mathlib.Core.Path.{ap₂}
use mathlib.Core.List.Memᴰ.{head, tail}
use tiktok_techjam_recsys_ag.Prelude.{
  ℕ, zero, suc, ◌+◌, ◌≡◌, ◌≤◌, ◌<◌, sym, ◌∙◌, List, [], ◌∷◌, arith, inl, inr, ◌⊎◌, ◌-◌, ◌++◌, refl,
  ap, Bool, filter_by, Bool-cases,
}
use tiktok_techjam_recsys_ag.Data.Arrays.{Array, positions_from, IsOrder, All}

pub positions-Mem : (k n i : ℕ) → k ≤ i → i < k + n → Memᴰ i (positions_from k n)
positions-Mem k zero i l h = absurd (omega arith)
positions-Mem k (suc n) i l h = elim (split k i l) [
  | inl e ↦ head e
  | inr m ↦ tail (positions-Mem (suc k) n i m (omega (arith, h)))
]
  where
    split : (k i : ℕ) → k ≤ i → (i ≡ k) ⊎ (suc k ≤ i)
    split k i l = ground arith

perm_mem : {i : ℕ} {xs ys : List ℕ} → Permᴰ xs ys → Memᴰ i ys → Memᴰ i xs
perm_mem Permᴰ.nil m = m
perm_mem (Permᴰ.cons e p) (head f) = head (f ∙ sym e)
perm_mem (Permᴰ.cons e p) (tail m) = tail (perm_mem p m)
perm_mem (Permᴰ.swap e f) (head g) = tail (head (g ∙ sym f))
perm_mem (Permᴰ.swap e f) (tail (head g)) = head (g ∙ sym e)
perm_mem (Permᴰ.swap e f) (tail (tail m)) = tail (tail m)
perm_mem (Permᴰ.trans p q) m = perm_mem p (perm_mem q m)

pub order-Mem :
    (times : Array ℕ) (order : List ℕ) (i : ℕ) → IsOrder times order → i < times.size → Memᴰ i order
order-Mem times order i h l =
    perm_mem h.each (positions-Mem 0 times.size i (omega arith) (omega (arith, l)))

-- The first members, and the others.
abbrev pub first : {A : Type 0} → ℕ → Array A → Array A
first n array = record { size = n; at = array.at }

abbrev pub others : {A : Type 0} → ℕ → Array A → Array A
others n array = record { size = array.size - n; at = λ k. array.at (n + k) }

pub positions-append :
    (k m r : ℕ) → positions_from k (m + r) ≡ positions_from k m ++ positions_from (k + m) r
positions-append k zero r = ap₂ (λ a b. positions_from a b) (omega arith) (omega arith)
positions-append k (suc m) r =
    let e : suc m + r ≡ suc (m + r) = omega arith in
    let f : k + suc m ≡ suc k + m = omega arith in
    rw (e, f) (ap (λ js. k ∷ js) (positions-append (suc k) m r))

pub All-positions :
    (P : ℕ → Type 0) (k n : ℕ) → ((j : ℕ) → k ≤ j → j < k + n → P j) → All P (positions_from k n)
All-positions P k zero h = tt
All-positions P k (suc n) h = (
  h k (omega arith) (omega arith),
  All-positions P (suc k) n (λ j a b. h j (omega (arith, a)) (omega (arith, b))),
)

perm_sym : {xs ys : List ℕ} → Permᴰ xs ys → Permᴰ ys xs
perm_sym Permᴰ.nil = Permᴰ.nil
perm_sym (Permᴰ.cons e p) = Permᴰ.cons (sym e) (perm_sym p)
perm_sym (Permᴰ.swap e f) = Permᴰ.swap (sym f) (sym e)
perm_sym (Permᴰ.trans p q) = Permᴰ.trans (perm_sym q) (perm_sym p)

-- Two orders of the same rows.
pub perm_both : {xs ys zs : List ℕ} → Permᴰ xs zs → Permᴰ ys zs → Permᴰ xs ys
perm_both p q = Permᴰ.trans p (perm_sym q)

perm_refl : (xs : List ℕ) → Permᴰ xs xs
perm_refl [] = Permᴰ.nil
perm_refl (x ∷ xs) = Permᴰ.cons refl (perm_refl xs)

pub perm_filter :
    (p : ℕ → Bool) {xs ys : List ℕ} → Permᴰ xs ys → Permᴰ (filter_by p xs) (filter_by p ys)
unfolding filter_by
perm_filter p Permᴰ.nil = Permᴰ.nil
perm_filter p (Permᴰ.cons {a = a} {b = b} e q) =
    let same : p b ≡ p a = ap p (sym e) in
    elim (Bool-cases (p a)) [
      | inl in' ↦ rw (same, in') (Permᴰ.cons e (perm_filter p q))
      | inr out ↦ rw (same, out) (perm_filter p q)
    ]
perm_filter p (Permᴰ.swap {a = a} {b = b} {a' = a'} {b' = b'} {l = l} e f) =
    let same_b : p a' ≡ p b = ap p (sym f) in
    let same_a : p b' ≡ p a = ap p (sym e) in
    elim (Bool-cases (p a)) [
      | inl in_a ↦ elim (Bool-cases (p b)) [
        | inl in_b ↦ rw (same_a, same_b, in_a, in_b) (Permᴰ.swap e f)
        | inr out_b ↦ rw (same_a, same_b, in_a, out_b) (Permᴰ.cons e (perm_refl (filter_by p l)))
      ]
      | inr out_a ↦ elim (Bool-cases (p b)) [
        | inl in_b ↦ rw (same_a, same_b, out_a, in_b) (Permᴰ.cons f (perm_refl (filter_by p l)))
        | inr out_b ↦ rw (same_a, same_b, out_a, out_b) (perm_refl (filter_by p l))
      ]
    ]
perm_filter p (Permᴰ.trans q r) = Permᴰ.trans (perm_filter p q) (perm_filter p r)
