-- ===== src/Status.antt =====
-- bitdb/status.h: the status codes, and code that returns a `Status` or runs into undefined behaviour.
-- The message texts are left out: nothing branches on them.
use bitdb.Base.{Option, none, some}

pub data StatusCode : Type 0 where
  not_found corruption invalid_argument not_supported io_error internal_error check_error :
      StatusCode

-- What a call that returned gives: its out-parameters under `Status::Ok`, or another status.
pub data Outcome {ℓ} (A : Type ℓ) : Type ℓ where
  ok : A → Outcome A
  err : StatusCode → Outcome A

-- `none` is undefined behaviour: a null dereference, a failed `assert`, an access out of bounds.
abbrev pub Fallible {ℓ} : Type ℓ → Type ℓ
Fallible A = Option (Outcome A)

abbrev pub return_ok {ℓ} : {A : Type ℓ} → A → Fallible A
return_ok a = some (ok a)

abbrev pub return_err {ℓ} : {A : Type ℓ} → StatusCode → Fallible A
return_err c = some (err c)

-- CHECK_OK: an error status is returned to the caller at once.
infixl 5 ◌>>=◌
abbrev pub ◌>>=◌ {ℓ κ} : {A : Type ℓ} {B : Type κ} → Fallible A → (A → Fallible B) → Fallible B
none >>= f = none
some (err c) >>= f = some (err c)
some (ok a) >>= f = f a

-- A computation with no status of its own.
abbrev pub defined {ℓ} : {A : Type ℓ} → Option A → Fallible A
defined none = none
defined (some a) = some (ok a)
