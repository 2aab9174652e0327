-- ===== src/Data/Groups.antt =====
-- src/rex/data/groups.py: the rows of each user, and pairs of a liked and a skipped row of one user.
pub mod Matched
pub mod SameUser
use mathlib.Core.List.{Memᴰ}
use tiktok_techjam_recsys_ag.Prelude.{
  ℕ, suc, ◌+◌, ◌-◌, ◌*◌, ◌≡◌, ◌<◌, Bool, true, false, not, ◌&&◌, ◌||◌, Option, none, some, List, [],
  ◌∷◌, ◌++◌, String, string_eq, nat_eq, ◌==◌, ltb, length, filter_by, map, if◌then◌else◌,
}
use tiktok_techjam_recsys_ag.Prelude.Table.{Table, get, put}
use tiktok_techjam_recsys_ag.Data.Arrays.{Array, positions, take, ◌>>=◌, ◌>>◌, require, value_or}
use tiktok_techjam_recsys_ag.Data.Temporal.{is_nonempty}

-- `np.repeat`, `rng.choice(…, replace=True)` at each of its calls, and `rng.permutation`.
pub record Sampling : Type 0 where
  pub repeat : List ℕ → ℕ → List ℕ
  pub choice : ℕ → List ℕ → ℕ → List ℕ
  pub permutation : ℕ → List ℕ

-- What numpy documents of them.
pub record IsSampling (rng : Sampling) : Type 0 where
  pub repeat_length : (xs : List ℕ) (k : ℕ) → length (rng.repeat xs k) ≡ length xs * k
  pub repeat_member : (xs : List ℕ) (k i : ℕ) → Memᴰ i (rng.repeat xs k) → Memᴰ i xs
  pub choice_length :
      (call : ℕ) (xs : List ℕ) (n : ℕ) → is_nonempty xs ≡ true → length (rng.choice call xs n) ≡ n
  pub choice_member : (call : ℕ) (xs : List ℕ) (n i : ℕ) → Memᴰ i (rng.choice call xs n) → Memᴰ i xs
  pub permuted : (n i : ℕ) → Memᴰ i (rng.permutation n) → i < n

pub record PairSample : Type 0 where
  pub positive_indices : List ℕ
  pub negative_indices : List ℕ
  pub users_with_pairs : ℕ
  pub pairs_per_user : Table String ℕ

-- `groups.setdefault(user, []).append(index)`
abbrev pub add_index : Array String → Table String (List ℕ) → ℕ → Table String (List ℕ)
add_index user_ids groups i =
    put (user_ids.at i) (value_or [] (get (user_ids.at i) groups) ++ i ∷ []) groups

unfoldable pub group_rows : Array String → List ℕ → Table String (List ℕ) → Table String (List ℕ)
group_rows user_ids [] groups = groups
group_rows user_ids (i ∷ is) groups = group_rows user_ids is (add_index user_ids groups i)

unfoldable pub user_groups : Array String → Table String (List ℕ)
user_groups user_ids = group_rows user_ids (positions user_ids.size) []

-- `array[order]`
abbrev pub nth : List ℕ → ℕ → ℕ
nth [] i = 0
nth (x ∷ xs) Prim.Native.Nat.zero = x
nth (x ∷ xs) (Prim.Native.Nat.suc i) = nth xs i

-- The pairs so far: `positives`, `negatives` and `pairs_per_user`.
pub record Pairs : Type 0 where
  pub positives : List (List ℕ)
  pub negatives : List (List ℕ)
  pub per_user : Table String ℕ

abbrev pub concatenate : List (List ℕ) → List ℕ
concatenate [] = []
concatenate (xs ∷ xss) = xs ++ concatenate xss

-- `order[:max_pairs]`, for a number of pairs that is not negative
abbrev pub limited : Option ℕ → List ℕ → List ℕ
limited none order = order
limited (some n) order = take n order

-- The labels are compared with 1 and with 0.
module _ {L : Type 0} (is_one is_zero : L → Bool) (rng : Sampling) where
  -- One user; the calls of `rng.choice` are as many as the users with pairs so far.
  abbrev pub add_user : Array L → ℕ → Pairs → String × List ℕ → Pairs
  add_user labels per_positive pairs (user, indices) =
      let pos = filter_by (λ i. is_one (labels.at i)) indices in
      let neg = filter_by (λ i. is_zero (labels.at i)) indices in
      let repeated = rng.repeat pos per_positive in
      if not (is_nonempty pos) || not (is_nonempty neg) then pairs else record {
        positives = pairs.positives ++ repeated ∷ [];
        negatives =
            pairs.negatives ++ rng.choice (length pairs.positives) neg (length repeated) ∷ [];
        per_user = put user (length repeated) pairs.per_user;
      }

  unfoldable pub add_users : Array L → ℕ → Table String (List ℕ) → Pairs → Pairs
  add_users labels per_positive [] pairs = pairs
  add_users labels per_positive (row ∷ rows) pairs =
      add_users labels per_positive rows (add_user labels per_positive pairs row)

  -- The sample of some pairs, in the order of the permutation.
  abbrev pub sample_of : Option ℕ → Pairs → PairSample
  sample_of max_pairs pairs =
      let pos_all = concatenate pairs.positives in
      let neg_all = concatenate pairs.negatives in
      let order = limited max_pairs (rng.permutation (length pos_all)) in
      if is_nonempty pairs.positives
      then record {
        positive_indices = map (nth pos_all) order;
        negative_indices = map (nth neg_all) order;
        users_with_pairs = length pairs.per_user;
        pairs_per_user = pairs.per_user;
      }
      else record {
        positive_indices = [];
        negative_indices = [];
        users_with_pairs = 0;
        pairs_per_user = [];
      }

  unfoldable pub sample_same_user_pairs : Array String → Array L → ℕ → Option ℕ → Option PairSample
  sample_same_user_pairs user_ids labels negatives_per_positive max_pairs = do
    require (ltb 0 negatives_per_positive)
    require (user_ids.size == labels.size)
    some (
        sample_of max_pairs (
          add_users labels negatives_per_positive (user_groups user_ids)
            (record { positives = []; negatives = []; per_user = [] })))
