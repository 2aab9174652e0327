-- ===== src/Result.antt =====
-- What a call that may raise returns. `IllegalTransition` and `RepositoryError` are the program's;
-- `sqlite3.IntegrityError` is raised by the database when a UNIQUE or REFERENCES constraint of
-- src/rex/store/schema.sql fails.
pub mod Ensures
use tiktok_techjam_recsys_ag.Prelude.{Bool, true, false, Option, none, some, String}

pub data Error : Type 0 where
  illegal_transition : Error
  repository_error : String → Error
  integrity_error : Error

pub data Result {ℓ} (A : Type ℓ) : Type ℓ where
  err : Error → Result A
  ok : A → Result A

-- `if not condition: raise error`
abbrev pub require : Bool → Error → Result (Unit {0})
require false error = err error
require true _ = ok tt

-- `if value is None: raise error`
abbrev pub require_some {ℓ} : {A : Type ℓ} → Option A → Error → Result A
require_some none error = err error
require_some (some a) _ = ok a

-- The statements after one that may raise: they run on its value, or not at all.
abbrev pub ◌>>=◌ {ℓ} : {A B : Type ℓ} → Result A → (A → Result B) → Result B
err raised >>= _ = err raised
ok value >>= rest = rest value

abbrev pub ◌>>◌ : {A : Type 0} → Result (Unit {0}) → Result A → Result A
check >> rest = check >>= λ _. rest

infixl 5 ◌>>=◌ ◌>>◌
-- `if row is not None: return f(row)`, and what follows.
abbrev pub on_row {ℓ κ} :
    {A : Type ℓ} {B : Type κ} → Option A → (A → Result B) → Result B → Result B
on_row none f m = m
on_row (some a) f m = f a

-- The call returns.
abbrev pub is_ok {ℓ} : {A : Type ℓ} → Result A → Bool
is_ok (err _) = false
is_ok (ok _) = true
