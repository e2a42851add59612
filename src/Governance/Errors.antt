-- ===== src/Governance/Errors.antt =====
-- The exceptions of src/cranus/common/errors.py that the governance plane raises.
use cranus.Base.{Bool, true, false}

pub data PolicyError : Type 0 where
  access_denied kill_switch_engaged : PolicyError

pub data Result (A : Type 0) : Type 0 where
  ok : A → Result A
  raise : PolicyError → Result A

infixl 5 ◌>>=◌ ◌>>◌
abbrev pub ◌>>=◌ : {A B : Type 0} → Result A → (A → Result B) → Result B
ok a >>= f = f a
raise e >>= f = raise e

abbrev pub ◌>>◌ : {B : Type 0} → Result (Unit {0}) → Result B → Result B
m >> k = m >>= λ _. k

-- `if not condition: raise ...`
abbrev pub require : Bool → PolicyError → Result (Unit {0})
require true e = ok tt
require false e = raise e
