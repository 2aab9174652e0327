-- ===== src/Tests/Arrays.antt =====
-- Concrete arrays, and the library's functions on lists.
use mathlib.Core.List.{Permᴰ}
use tiktok_techjam_recsys_ag.Prelude.{
  ℕ, zero, suc, ◌+◌, ◌-◌, ◌*◌, ◌/◌, ◌^◌, ◌≡◌, refl, sym, ap, Bool, true, false, List, [], ◌∷◌, map,
  String, ltb, leb, ◌==◌, nat_eq, length, if◌then◌else◌, arith,
}
use tiktok_techjam_recsys_ag.Prelude.Int.{ℤ, pos, sub_ℕ, pos_part}
use tiktok_techjam_recsys_ag.Data.Arrays.{Array, Numpy, IsNumpy, IsOrder, take, drop}
use tiktok_techjam_recsys_ag.Features.Numbers.{Floats}

-- The library's functions on lists.
unfoldable pub insert_row : (ℕ → ℕ) → ℕ → List ℕ → List ℕ
insert_row time i [] = i ∷ []
insert_row time i (j ∷ js) = if leb (time i) (time j) then i ∷ j ∷ js else j ∷ insert_row time i js

unfoldable pub sort_rows : (ℕ → ℕ) → ℕ → ℕ → List ℕ
unfolding insert_row
sort_rows time k zero = []
sort_rows time k (suc n) = insert_row time k (sort_rows time (suc k) n)

differences : List ℕ → List ℤ
differences [] = []
differences (x ∷ []) = []
differences (x ∷ y ∷ xs) = sub_ℕ y x ∷ differences (y ∷ xs)

true_positions : List Bool → List ℕ
true_positions [] = []
true_positions (true ∷ bs) = 0 ∷ map suc (true_positions bs)
true_positions (false ∷ bs) = map suc (true_positions bs)

pieces : ℕ → List ℕ → List ℕ → List (List ℕ)
pieces zero xs cs = xs ∷ []
pieces (suc n) xs [] = xs ∷ []
pieces (suc n) xs (c ∷ cs) = take c xs ∷ pieces n (drop c xs) (map (λ k. k - c) cs)

unfoldable pub np : Numpy String
unfolding sort_rows differences true_positions pieces
np = record {
  lexsort = λ keys times. sort_rows times.at 0 times.size;
  argsort = λ times. sort_rows times.at 0 times.size;
  diff = differences;
  flatnonzero = true_positions;
  split = λ xs cs. pieces (length cs) xs cs;
}

length-map : (f : ℕ → ℕ) (xs : List ℕ) → length (map f xs) ≡ length xs
length-map f [] = refl
length-map f (x ∷ xs) = ap suc (length-map f xs)

pub np-IsNumpy : IsNumpy np
unfolding np
np-IsNumpy = record {
  diff_nil = refl;
  diff_one = λ x. refl;
  diff_more = λ x y xs. refl;
  nonzero_nil = refl;
  nonzero_true = λ bs. refl;
  nonzero_false = λ bs. refl;
  split_nil = λ xs. refl;
  split_cons = λ xs c cs.
      ap (λ n. take c xs ∷ pieces n (drop c xs) (map (λ k. k - c) cs))
        (sym (length-map (λ k. k - c) cs));
}

-- Whole numbers in place of floats.
unfoldable pub floats : Floats ℕ
floats = record {
  literal = λ x. pos_part x.mantissa / 10 ^ x.places;
  whole = λ n. n;
  plus = λ a b. a + b;
  minus = λ a b. a - b;
  times = λ a b. a * b;
  over = λ a b. a / b;
  less = ltb;
  is_zero = λ a. a == 0;
  is_nonpositive = λ a. a == 0;
  is_finite = λ a. true;
  half_to = λ a. 1;
  integer = pos;
  single = λ a. a;
  mean = mean;
}
  where
    sum : List ℕ → ℕ
    sum [] = 0
    sum (x ∷ xs) = x + sum xs

    mean : List ℕ → ℕ
    mean xs = sum xs / length xs

abbrev pub member {ℓ} : {A : Type ℓ} → A → List A → ℕ → A
member default [] i = default
member default (x ∷ xs) zero = x
member default (x ∷ xs) (suc i) = member default xs i

abbrev pub texts : List String → Array String
texts xs = record { size = length xs; at = member "" xs }

abbrev pub numbers : List ℕ → Array ℕ
numbers xs = record { size = length xs; at = member 0 xs }

-- Three rows, the second of the day before; two share a key.
abbrev pub days : Array ℕ
days = record { size = 3; at = day }
  where
    day : ℕ → ℕ
    day zero = 20220409
    day (suc zero) = 20220408
    day (suc (suc n)) = 20220410

abbrev pub videos : Array String
videos = texts ("v" ∷ "v" ∷ "v" ∷ [])

abbrev pub users : Array String
users = texts ("a" ∷ "a" ∷ "a" ∷ [])

abbrev pub row_ids : Array String
row_ids = texts ("r0" ∷ "r1" ∷ "r2" ∷ [])

-- The order of the days: the second row, the first, the third.
pub days-IsOrder : IsOrder days (np.lexsort row_ids days)
unfolding np sort_rows insert_row
days-IsOrder = record { each = Permᴰ.swap refl refl; chronological = omega arith }
