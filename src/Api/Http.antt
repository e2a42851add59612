-- ===== src/Api/Http.antt =====
-- The answers of a route of src/cranus/api: a value, or an HTTPException, with which the session is
-- rolled back.
use cranus.Base.{ℕ}
use cranus.Governance.Errors.{Result, ok, raise}

pub data Response (A : Type 0) : Type 0 where
  done : A → Response A
  failed : (status_code : ℕ) → Response A

infixl 5 ◌>>=◌ ◌>>◌
abbrev pub ◌>>=◌ : {A B : Type 0} → Response A → (A → Response B) → Response B
done a >>= f = f a
failed c >>= f = failed c

abbrev pub ◌>>◌ : {B : Type 0} → Response (Unit {0}) → Response B → Response B
m >> k = m >>= λ _. k

-- `except ... as exc: raise HTTPException(status_code=...)`
abbrev pub or_status : {A : Type 0} → ℕ → Result A → Response A
or_status status_code (ok a) = done a
or_status status_code (raise e) = failed status_code
