-- ===== src/Outcome.antt =====
-- What a Go function that returns an error leaves: its value, an error, or a run-time panic.
use infisical_pkcs.Base.{Bool, true, false, Option, none, some}
use Prim.Native.String.{String}
use infisical_pkcs.Errors.{GoError, wrap}

pub data Outcome (A : Type 0) : Type 0 where
  ok : A → Outcome A
  err : GoError → Outcome A
  panic : Outcome A

infixl 5 ◌>>=◌ ◌>>◌
abbrev pub ◌>>=◌ : {A B : Type 0} → Outcome A → (A → Outcome B) → Outcome B
ok a >>= f = f a
err e >>= f = err e
panic >>= f = panic

abbrev pub ◌>>◌ : {B : Type 0} → Outcome (Unit {0}) → Outcome B → Outcome B
m >> k = m >>= λ _. k

-- `if !condition { return err }`
abbrev pub require : Bool → GoError → Outcome (Unit {0})
require true e = ok tt
require false e = err e

abbrev pub or_error : {A : Type 0} → Option A → GoError → Outcome A
or_error none e = err e
or_error (some a) e = ok a

-- `fmt.Errorf("words: %w", err)` on the error of a call
abbrev pub wrap_error : {A : Type 0} → String → Outcome A → Outcome A
wrap_error words (ok a) = ok a
wrap_error words (err e) = err (wrap words e)
wrap_error words panic = panic
