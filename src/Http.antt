-- ===== src/Http.antt =====
-- What a handler of src/kohakuhub raises, and the result of code that may raise.
-- The texts of the HTTP errors are those of the source; constants.py holds the shared ones.
use kohaku_hub.Prelude.{ℕ, String, Bool, true, false, Option, none, some, ◌≡◌, refl, arith}

pub data Error : Type 0 where
  -- HTTPException(status, detail=...)
  http : ℕ → String → Error
  -- RepoReadDeniedError, with the repository's type and full id
  repo_read_denied : String → String → Error
  -- hf_repo_not_found(repo_id, repo_type)
  hf_repo_not_found : String → String → Error
  -- a unique index refuses a row
  integrity_error : Error
  -- Model.get() finds no row
  does_not_exist : Error
  -- an attribute of None
  attribute_error : Error
  -- ValueError
  value_error : Error
  -- no error of the program: a loop of the model was given too little fuel
  out_of_fuel : Error

-- What a handler gives: its answer, or what it raised.
pub data Result {ℓ} (Answer : Type ℓ) : Type ℓ where
  err : Error → Result Answer
  ok : Answer → Result Answer

-- The rest of a handler runs only if the part before it raised nothing.
infixl 5 ◌>>◌ ◌>>=◌
abbrev pub ◌>>=◌ {ℓ κ} : {X : Type ℓ} {Y : Type κ} → Result X → (X → Result Y) → Result Y
err raised >>= rest = err raised
ok answer >>= rest = rest answer

abbrev pub ◌>>◌ {ℓ} : {Y : Type ℓ} → Result (Unit {0}) → Result Y → Result Y
first >> rest = first >>= λ done. rest

-- `if not test: raise e`
abbrev pub require : Bool → Error → Result (Unit {0})
require true e = ok tt
require false e = err e

-- `if not value: raise e`, for a row or None
abbrev pub found {ℓ} : {A : Type ℓ} → Option A → Error → Result A
found none e = err e
found (some a) e = ok a

-- `if value: raise e`
abbrev pub absent {ℓ} : {A : Type ℓ} → Option A → Error → Result (Unit {0})
absent none e = ok tt
absent (some a) e = err e

-- A chain gives an answer only if each of its parts does.
pub bind_ok {ℓ κ} :
    {X : Type ℓ} {Y : Type κ} (first : Result X) (rest : X → Result Y) {y : Y}
    → first >>= rest ≡ ok y
    → (x : X) × (first ≡ ok x) × (rest x ≡ ok y)
bind_ok (err e) rest h = absurd (ground arith)
bind_ok (ok x) rest h = (x, refl, h)
