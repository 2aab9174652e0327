-- ===== src/Tests/Samples.antt =====
-- The sampler of src/rex/data/groups.py on concrete rows.
use mathlib.Core.List.{Memᴰ}
use mathlib.Core.List.Memᴰ.{head, tail}
use tiktok_techjam_recsys_ag.Data.Groups.{Sampling, IsSampling, PairSample, sample_same_user_pairs}
use tiktok_techjam_recsys_ag.Data.Groups.SameUser.{SameUser, sample-SameUser}
use tiktok_techjam_recsys_ag.Data.Groups.Matched.{Matched}
use tiktok_techjam_recsys_ag.Prelude.{
  ℕ, zero, suc, ◌+◌, ◌*◌, ◌≡◌, ◌⊎◌, ◌∙◌, inl, inr, ◌<◌, refl, true, some, List, [], ◌∷◌, ◌==◌,
  nat_eq, length, arith,
}
use tiktok_techjam_recsys_ag.Data.Temporal.{is_nonempty}
use tiktok_techjam_recsys_ag.Tests.Arrays.{numbers, users}

-- A sampler that repeats in order, chooses the first member, and reverses.
copies : ℕ → ℕ → List ℕ → List ℕ
copies zero x xs = xs
copies (suc n) x xs = x ∷ copies n x xs

repeat_each : List ℕ → ℕ → List ℕ
repeat_each [] k = []
repeat_each (x ∷ xs) k = copies k x (repeat_each xs k)

choose_first : List ℕ → ℕ → List ℕ
choose_first [] n = []
choose_first (x ∷ xs) n = copies n x []

countdown : ℕ → List ℕ
countdown zero = []
countdown (suc n) = n ∷ countdown n

length-copies : (n x : ℕ) (xs : List ℕ) → length (copies n x xs) ≡ n + length xs
unfolding copies
length-copies zero x xs = omega arith
length-copies (suc n) x xs = omega (arith, length-copies n x xs)

copies-member : (n x i : ℕ) (xs : List ℕ) → Memᴰ i (copies n x xs) → (i ≡ x) ⊎ Memᴰ i xs
unfolding copies
copies-member zero x i xs m = inr m
copies-member (suc n) x i xs (head e) = inl e
copies-member (suc n) x i xs (tail m) = copies-member n x i xs m

rng : Sampling
rng = record {
  repeat = repeat_each;
  choice = λ call xs n. choose_first xs n;
  permutation = countdown;
}

length-repeat_each : (xs : List ℕ) (k : ℕ) → length (repeat_each xs k) ≡ length xs * k
unfolding repeat_each
length-repeat_each [] k = omega arith
length-repeat_each (x ∷ xs) k =
    length-copies k x (repeat_each xs k) ∙ grind (arith, length-repeat_each xs k)

repeat_each-member : (xs : List ℕ) (k i : ℕ) → Memᴰ i (repeat_each xs k) → Memᴰ i xs
unfolding repeat_each
repeat_each-member [] k i m = m
repeat_each-member (x ∷ xs) k i m = elim (copies-member k x i (repeat_each xs k) m) [
  | inl e ↦ head e
  | inr n ↦ tail (repeat_each-member xs k i n)
]

length-choose_first :
    (call : ℕ) (xs : List ℕ) (n : ℕ) → is_nonempty xs ≡ true → length (choose_first xs n) ≡ n
unfolding choose_first
length-choose_first call [] n h = cc
length-choose_first call (x ∷ xs) n h = omega (arith, length-copies n x [])

choose_first-member : (call : ℕ) (xs : List ℕ) (n i : ℕ) → Memᴰ i (choose_first xs n) → Memᴰ i xs
unfolding choose_first
choose_first-member call [] n i m = m
choose_first-member call (x ∷ xs) n i m = elim (copies-member n x i [] m) [
  | inl e ↦ head e
  | inr n' ↦ elim n' [ ]
]

countdown-member : (n i : ℕ) → Memᴰ i (countdown n) → i < n
unfolding countdown
countdown-member zero i m = elim m [ ]
countdown-member (suc n) i (head e) = omega (arith, e)
countdown-member (suc n) i (tail m) = omega (arith, countdown-member n i m)

rng-IsSampling : IsSampling rng
unfolding rng
rng-IsSampling = record {
  repeat_length = length-repeat_each;
  repeat_member = repeat_each-member;
  choice_length = length-choose_first;
  choice_member = choose_first-member;
  permuted = countdown-member;
}

sample-SameUser_example :
    (sample : PairSample) × (sample_same_user_pairs
        (λ x. x == 1)
        (λ x. x == 0)
        rng
        users
        (numbers (1 ∷ 0 ∷ 1 ∷ []))
        2
        (some 3)
      ≡ some sample)
    × Matched
        (SameUser (λ x. x == 1) (λ x. x == 0) users (numbers (1 ∷ 0 ∷ 1 ∷ [])))
        sample.positive_indices
        sample.negative_indices
sample-SameUser_example =
    sample-SameUser (λ x. x == 1) (λ x. x == 0) rng rng-IsSampling users (numbers (1 ∷ 0 ∷ 1 ∷ []))
      2 (some 3) (omega arith) refl
