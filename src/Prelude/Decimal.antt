-- ===== src/Prelude/Decimal.antt =====
-- A finite Python float as the decimal number that `str` prints for it: mantissa / 10 ^ places, in
-- lowest terms. Floats are equal exactly when these are (-0.0 is read as 0).
use tiktok_techjam_recsys_ag.Prelude.Int.{ℤ, pos, pos_part, neg_part, ℤ-discrete}
use mathlib.Core.Bool.{Bool}
use native.Mathlib.Decide.{ℕ_discrete}
use Prim.Native.Nat.{ℕ, ◌*◌, ◌^◌, ◌+◌}
use tiktok_techjam_recsys_ag.Prelude.Tests.{Eq, ltb}

pub record Float : Type 0 where
  pub mantissa : ℤ
  pub places : ℕ

unfoldable pub Float-discrete : Discrete Float
Float-discrete = hlevel (ℤ-discrete, ℕ_discrete)

instance abbrev pub float_eq : Eq Float
float_eq = record { dec = Float-discrete }

abbrev pub zero_float : Float
zero_float = record { mantissa = pos 0; places = 0 }

-- `a < b` on floats, and on the decimals that `str` prints for them.
unfoldable pub ltb_float : Float → Float → Bool
ltb_float a b =
    ltb (pos_part a.mantissa * 10 ^ b.places + neg_part b.mantissa * 10 ^ a.places)
      (pos_part b.mantissa * 10 ^ a.places + neg_part a.mantissa * 10 ^ b.places)
