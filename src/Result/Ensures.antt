-- ===== src/Result/Ensures.antt =====
-- What every successful result of a call satisfies, with one rule for each way to build a call.
use mathlib.Core.Path.{subst}
use tiktok_techjam_recsys_ag.Prelude.{
  ◌≡◌, refl, Bool, true, false, Option, none, some, if◌then◌else◌,
}
use tiktok_techjam_recsys_ag.Result.{
  Result, Error, ok, err, ◌>>=◌, ◌>>◌, require, require_some, on_row,
}

pub record Ensures {A : Type 0} (P : A → Type 0) (m : Result A) : Type 0 where
  pub at : (a : A) → m ≡ ok a → P a

module _ {A : Type 0} {P : A → Type 0} where
  pub Ensures-ok : (a : A) → P a → Ensures P (ok a)
  Ensures-ok a p = record { at = λ b e. let q : a ≡ b = cc in subst P q p }

  pub Ensures-err : (e : Error) → Ensures P (err e)
  Ensures-err e = record { at = λ b p. cc }

  pub Ensures-require :
      (b : Bool) (e : Error) (m : Result A)
      → (b ≡ true → Ensures P m)
      → Ensures P (require b e >> m)
  Ensures-require true e m h = h refl
  Ensures-require false e m h = Ensures-err e

  pub Ensures-if :
      (b : Bool) (m n : Result A)
      → (b ≡ true → Ensures P m)
      → (b ≡ false → Ensures P n)
      → Ensures P (if b then m else n)
  Ensures-if true m n hm hn = hm refl
  Ensures-if false m n hm hn = hn refl

module _ {A B : Type 0} {P : B → Type 0} where
  pub Ensures-bind :
      (m : Result A) (f : A → Result B)
      → ((a : A) → m ≡ ok a → Ensures P (f a))
      → Ensures P (m >>= f)
  Ensures-bind (ok a) f h = h a refl
  Ensures-bind (err e) f h = Ensures-err e

  pub Ensures-on_row :
      (row : Option A) (f : A → Result B) (m : Result B)
      → ((a : A) → row ≡ some a → Ensures P (f a))
      → (row ≡ none → Ensures P m)
      → Ensures P (on_row row f m)
  Ensures-on_row none f m hf hm = hm refl
  Ensures-on_row (some a) f m hf hm = hf a refl

  pub Ensures-require_some :
      (row : Option A) (e : Error) (f : A → Result B)
      → ((a : A) → row ≡ some a → Ensures P (f a))
      → Ensures P (require_some row e >>= f)
  Ensures-require_some none e f h = Ensures-err e
  Ensures-require_some (some a) e f h = h a refl

pub ruleset ensures_rules =
    (Ensures-ok, Ensures-err, Ensures-require, Ensures-if, Ensures-bind, Ensures-on_row)
