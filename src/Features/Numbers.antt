-- ===== src/Features/Numbers.antt =====
-- The numbers and the dictionaries of the feature builders of src/rex/features. Floats are a parameter; a
-- dictionary is an association list, and a defaultdict one that is read with its default (reading a
-- defaultdict also stores the default, which no later reading sees).
use tiktok_techjam_recsys_ag.Prelude.{ℕ, Bool, Option, none, some, List, Eq, if◌then◌else◌, map}
use tiktok_techjam_recsys_ag.Prelude.Int.{ℤ}
use tiktok_techjam_recsys_ag.Prelude.Decimal.{Float}
use tiktok_techjam_recsys_ag.Data.Arrays.{Array, positions}

-- Float literals, the conversion of an integer, `+`, `-`, `*`, `/`, `<`, the tests for zero and for `x <= 0`, `np.isfinite`, `0.5 ** x`,
-- `int(x)`, what an array of float32 keeps of a float, and `np.mean`.
pub record Floats (F : Type 0) : Type 0 where
  pub literal : Float → F
  pub whole : ℕ → F
  pub plus : F → F → F
  pub minus : F → F → F
  pub times : F → F → F
  pub over : F → F → F
  pub less : F → F → Bool
  pub is_zero : F → Bool
  pub is_nonpositive : F → Bool
  pub is_finite : F → Bool
  pub half_to : F → F
  pub integer : F → ℤ
  pub single : F → F
  pub mean : List F → F

unfoldable pub Pair-discrete : {A B : Type 0} → Discrete A → Discrete B → Discrete (A × B)
Pair-discrete d e = hlevel (d, e)

unfoldable pub Triple-discrete :
    {A B C : Type 0} → Discrete A → Discrete B → Discrete C → Discrete (A × B × C)
Triple-discrete d e f = hlevel (d, e, f)

instance abbrev pub pair_eq : {A B : Type 0} ⦃d : Eq A⦄ ⦃e : Eq B⦄ → Eq (A × B)
pair_eq ⦃d⦄ ⦃e⦄ = record { dec = Pair-discrete d.dec e.dec }

module _ {F : Type 0} (floats : Floats F) where
  -- `a / b`, which raises at zero.
  abbrev pub divide : F → F → Option F
  divide a b = if floats.is_zero b then none else some (floats.over a b)

  abbrev pub zero : F
  zero = floats.whole 0

-- The members of an array, in their order.
abbrev pub members : {A : Type 0} → Array A → List A
members array = map array.at (positions array.size)
