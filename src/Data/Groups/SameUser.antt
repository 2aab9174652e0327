-- ===== src/Data/Groups/SameUser.antt =====
-- The pairs of `sample_same_user_pairs` of src/rex/data/groups.py are of one user.
use mathlib.Core.List.{Memᴰ}
use mathlib.Core.List.Memᴰ.{head, tail}
use tiktok_techjam_recsys_ag.Prelude.{
  ℕ, zero, suc, ◌≡◌, ◌<◌, refl, sym, ap, ◌∙◌, inl, inr, Bool, true, false, not, ◌||◌, Option, none,
  some, List, [], ◌∷◌, ◌++◌, String, string_eq, nat_eq, ◌==◌, eq_of_==, Bool-cases, ltb, length,
  filter_by, if◌then◌else◌, arith,
}
use tiktok_techjam_recsys_ag.Prelude.Table.{Table, get, put}
use tiktok_techjam_recsys_ag.Data.Arrays.{Array, positions, take, value_or}
use tiktok_techjam_recsys_ag.Data.Temporal.{is_nonempty}
use tiktok_techjam_recsys_ag.Data.Groups.{
  Sampling, IsSampling, PairSample, Pairs, add_index, group_rows, user_groups, nth, concatenate,
  limited, add_user, add_users, sample_of, sample_same_user_pairs,
}
use tiktok_techjam_recsys_ag.Data.Groups.Matched.{
  Matched, Matched-all, Matched-map, Matched-nth, AllMatched, AllMatched-concatenate,
  AllMatched-snoc,
}

module _ (p : ℕ → Bool) where
  filter_member : (xs : List ℕ) (i : ℕ) → Memᴰ i (filter_by p xs) → Memᴰ i xs × (p i ≡ true)
  unfolding filter_by
  filter_member [] i m = elim m [ ]
  filter_member (x ∷ xs) i m = split (p x) refl (filter_member xs i) m
    where
      split :
          (b : Bool)
          → p x ≡ b
          → (Memᴰ i (filter_by p xs) → Memᴰ i xs × (p i ≡ true))
          → Memᴰ i (if b then x ∷ filter_by p xs else filter_by p xs)
          → Memᴰ i (x ∷ xs) × (p i ≡ true)
      split true e ih (head f) = (head f, ap p f ∙ e)
      split true e ih (tail n) = (tail (ih n).0, (ih n).1)
      split false e ih n = (tail (ih n).0, (ih n).1)

take_member : (n : ℕ) (xs : List ℕ) (i : ℕ) → Memᴰ i (take n xs) → Memᴰ i xs
take_member zero xs i m = elim m [ ]
take_member (suc n) [] i m = elim m [ ]
take_member (suc n) (x ∷ xs) i (head e) = head e
take_member (suc n) (x ∷ xs) i (tail m) = tail (take_member n xs i m)

-- The rows of a group are rows of its user.
module _ (user_ids : Array String) where
  abbrev OfUser : String → List ℕ → Type 0
  OfUser u is = (i : ℕ) → Memᴰ i is → user_ids.at i ≡ u

  abbrev IsGrouped : Table String (List ℕ) → Type 0
  IsGrouped [] = Unit
  IsGrouped ((u, is) ∷ t) = OfUser u is × IsGrouped t

  OfUser-get :
      (u : String) (t : Table String (List ℕ)) → IsGrouped t → OfUser u (value_or [] (get u t))
  unfolding get
  OfUser-get u [] g = λ i m. elim m [ ]
  OfUser-get u ((v, is) ∷ t) g = split (v == u) refl (OfUser-get u t g.1)
    where
      split :
          (b : Bool)
          → (v == u) ≡ b
          → OfUser u (value_or [] (get u t))
          → OfUser u (value_or [] (if b then some is else get u t))
      split true e rest = λ i m. g.0 i m ∙ eq_of_== e
      split false e rest = rest

  IsGrouped-put :
      (u : String) (is : List ℕ) (t : Table String (List ℕ))
      → OfUser u is
      → IsGrouped t
      → IsGrouped (put u is t)
  unfolding put
  IsGrouped-put u is [] o g = (o, tt)
  IsGrouped-put u is ((v, js) ∷ t) o g = elim (Bool-cases (v == u)) [
    | inl same ↦ rw same (o, g.1)
    | inr other ↦ rw other (g.0, IsGrouped-put u is t o g.1)
  ]

  snoc_of :
      (u : String) (is : List ℕ) (i : ℕ) → user_ids.at i ≡ u → OfUser u is → OfUser u (is ++ i ∷ [])
  snoc_of u [] i e o j (head f) = ap user_ids.at f ∙ e
  snoc_of u [] i e o j (tail m) = elim m [ ]
  snoc_of u (k ∷ is) i e o j (head f) = o j (head f)
  snoc_of u (k ∷ is) i e o j (tail m) = snoc_of u is i e (λ a n. o a (tail n)) j m

  IsGrouped-rows :
      (is : List ℕ) (t : Table String (List ℕ)) → IsGrouped t → IsGrouped (group_rows user_ids is t)
  unfolding group_rows
  IsGrouped-rows [] t g = g
  IsGrouped-rows (i ∷ is) t g = IsGrouped-rows is (add_index user_ids t i) (
      IsGrouped-put (user_ids.at i) (value_or [] (get (user_ids.at i) t) ++ i ∷ []) t
        (snoc_of (user_ids.at i) (value_or [] (get (user_ids.at i) t)) i refl
          (OfUser-get (user_ids.at i) t g))
        g)

module _ {L : Type 0} (is_one is_zero : L → Bool) (user_ids : Array String) (labels : Array L) where
  -- A row with label 1 and a row with label 0 of the same user.
  abbrev pub SameUser : ℕ → ℕ → Type 0
  SameUser a b =
      (user_ids.at a ≡ user_ids.at b)
      × (is_one (labels.at a) ≡ true)
      × (is_zero (labels.at b) ≡ true)

module _ {L : Type 0} (is_one is_zero : L → Bool) (rng : Sampling) (laws : IsSampling rng)
    (user_ids : Array String) (labels : Array L) where
  abbrev Same : ℕ → ℕ → Type 0
  Same = SameUser is_one is_zero user_ids labels

  paired :
      (u : String) (is : List ℕ) (per_positive call : ℕ)
      → OfUser user_ids u is
      → is_nonempty (filter_by (λ i. is_zero (labels.at i)) is) ≡ true
      → let repeated = rng.repeat (filter_by (λ i. is_one (labels.at i)) is) per_positive in
        Matched Same repeated
          (rng.choice call (filter_by (λ i. is_zero (labels.at i)) is) (length repeated))
  paired u is per_positive call o some_zero =
      let pos = filter_by (λ i. is_one (labels.at i)) is in
      let neg = filter_by (λ i. is_zero (labels.at i)) is in
      Matched-all Same _ _ (sym (laws.choice_length call neg _ some_zero)) (λ a b m n.
        let (ma, one) =
          filter_member (λ i. is_one (labels.at i)) is a
            (laws.repeat_member pos per_positive a m) in
        let (mb, nil') =
          filter_member (λ i. is_zero (labels.at i)) is b (laws.choice_member call neg _ b n) in
        (o a ma ∙ sym (o b mb), one, nil'))

  abbrev IsPaired : Pairs → Type 0
  IsPaired pairs = AllMatched Same pairs.positives pairs.negatives

  user-IsPaired :
      (per_positive : ℕ) (pairs : Pairs) (u : String) (is : List ℕ)
      → OfUser user_ids u is
      → IsPaired pairs
      → IsPaired (add_user is_one is_zero rng labels per_positive pairs (u, is))
  user-IsPaired per_positive pairs u is o p =
      let pos = filter_by (λ i. is_one (labels.at i)) is in
      let neg = filter_by (λ i. is_zero (labels.at i)) is in
      elim (Bool-cases (not (is_nonempty pos) || not (is_nonempty neg))) [
        | inl skipped ↦ rw skipped p
        | inr kept ↦ rw kept (
            AllMatched-snoc Same pairs.positives pairs.negatives _ _ p (
              paired u is per_positive (length pairs.positives) o
                (second (is_nonempty pos) (is_nonempty neg) kept)))
      ]
    where
      second : (a b : Bool) → (not a || not b) ≡ false → b ≡ true
      second a b h = ground arith

  users-IsPaired :
      (per_positive : ℕ) (rows : Table String (List ℕ)) (pairs : Pairs)
      → IsGrouped user_ids rows
      → IsPaired pairs
      → IsPaired (add_users is_one is_zero rng labels per_positive rows pairs)
  unfolding add_users
  users-IsPaired per_positive [] pairs g p = p
  users-IsPaired per_positive ((u, is) ∷ rows) pairs g p =
      users-IsPaired per_positive rows _ g.1 (user-IsPaired per_positive pairs u is g.0 p)

  sample_of-Matched :
      (max_pairs : Option ℕ) (pairs : Pairs)
      → IsPaired pairs
      → let sample = sample_of is_one is_zero rng max_pairs pairs in
        Matched Same sample.positive_indices sample.negative_indices
  sample_of-Matched max_pairs pairs p = elim (Bool-cases (is_nonempty pairs.positives)) [
    | inr none' ↦ rw none' tt
    | inl some' ↦ rw some' (
        Matched-map Same (nth (concatenate pairs.positives)) (nth (concatenate pairs.negatives))
          (limited max_pairs (rng.permutation (length (concatenate pairs.positives))))
          (λ k m.
            Matched-nth Same (concatenate pairs.positives) (concatenate pairs.negatives) k
              (AllMatched-concatenate Same pairs.positives pairs.negatives p)
              (laws.permuted (length (concatenate pairs.positives)) k
                (limited_member max_pairs _ k m))))
  ]
    where
      limited_member : (o : Option ℕ) (ks : List ℕ) (k : ℕ) → Memᴰ k (limited o ks) → Memᴰ k ks
      limited_member none ks k m = m
      limited_member (some n) ks k m = take_member n ks k m

  -- With a positive number of negatives and as many users as labels, sample_same_user_pairs
  -- returns, and its positives and negatives are matched one by one: the two rows of a pair are of
  -- the same user, the first with label 1 and the second with label 0.
  pub sample-SameUser :
      (per_positive : ℕ) (max_pairs : Option ℕ)
      → 0 < per_positive
      → user_ids.size ≡ labels.size
      → (sample : PairSample) × (sample_same_user_pairs is_one is_zero rng user_ids labels
            per_positive max_pairs
          ≡ some sample)
        × Matched
            (SameUser is_one is_zero user_ids labels)
            sample.positive_indices
            sample.negative_indices
  unfolding sample_same_user_pairs user_groups
  sample-SameUser per_positive max_pairs positive same =
      let pairs =
        add_users is_one is_zero rng labels per_positive (user_groups user_ids)
          (record { positives = []; negatives = []; per_user = [] }) in
      (
        sample_of is_one is_zero rng max_pairs pairs,
        rw (lt→ltb 0 per_positive positive, eq→== user_ids.size labels.size same) refl,
        sample_of-Matched max_pairs pairs (
            users-IsPaired per_positive (user_groups user_ids)
              (record { positives = []; negatives = []; per_user = [] }) grouped tt),
      )
    where
      lt→ltb : (a b : ℕ) → a < b → ltb a b ≡ true
      lt→ltb a b h = ground arith

      eq→== : (a b : ℕ) → a ≡ b → (a == b) ≡ true
      eq→== a b h = ground arith

      grouped : IsGrouped user_ids (user_groups user_ids)
      grouped = IsGrouped-rows user_ids (positions user_ids.size) [] tt
