-- ===== src/Main/Ensures.antt =====
-- Rules for what the reply of an exported function ensures.
use infisical_pkcs.Base.{ℕ, ◌≡◌, refl, arith, Bool-cases, inl, inr}
use infisical_pkcs.Errors.{map_error_to_rv}
use infisical_pkcs.Outcome.{Outcome, ok, err, panic}
use infisical_pkcs.Backend.State.{Env, Backend, Method, ◌>>=◌, pure}
use infisical_pkcs.Main.Reply.{catch_error, when_initialized}

-- A reply, if the call gives one, has the property.
abbrev pub Ensures : {R : Type 0} → (R → Type 0) → Outcome R → Type 0
Ensures P (ok reply) = P reply
Ensures P (err failure) = Unit
Ensures P panic = Unit

module _ {W A : Type 0} {R : Type 0} (P : R → Type 0) where
  pub bind-Ensures :
      (m : Method W A) (f : A → Method W R) (b : Backend W) (r : Outcome A)
      → (m b).0 ≡ r
      → ((a : A) → r ≡ ok a → Ensures P (f a (m b).1).0)
      → Ensures P ((m >>= f) b).0
  bind-Ensures m f b (ok a) e k =
      let same : ((m >>= f) b).0 ≡ (f a (m b).1).0 = ground (arith, e) in rw same (k a refl)
  bind-Ensures m f b (err failure) e k =
      let same : ((m >>= f) b).0 ≡ err failure = ground (arith, e) in rw same tt
  bind-Ensures m f b panic e k =
      let same : ((m >>= f) b).0 ≡ panic = ground (arith, e) in rw same tt

  pub pure-Ensures :
      (m : Method W A) (f : A → R) (b : Backend W)
      → ((a : A) → P (f a))
      → Ensures P ((m >>= λ a. pure (f a)) b).0
  pure-Ensures m f b k = bind-Ensures m (λ a. pure (f a)) b (m b).0 refl λ a r. k a

module _ (e : Env) where
  open e use {service}

  module _ {R : Type 0} (P : R → Type 0) (reply : ℕ → R) (small : (rv : ℕ) → P (reply rv)) where
    pub catch_error-Ensures :
        (m : Method service.World R) (b : Backend service.World) (r : Outcome R)
        → (m b).0 ≡ r
        → Ensures P r
        → Ensures P (catch_error e reply m b).0
    unfolding catch_error
    catch_error-Ensures m b (ok a) met h =
        let same : (catch_error e reply m b).0 ≡ ok a = ground (arith, met) in rw same h
    catch_error-Ensures m b (err failure) met h =
        let rv = map_error_to_rv e.library.unicode_lower failure in
        let same : (catch_error e reply m b).0 ≡ ok (reply rv) = ground (arith, met) in
        rw same (small rv)
    catch_error-Ensures m b panic met h =
        let same : (catch_error e reply m b).0 ≡ panic = ground (arith, met) in rw same tt

    pub when_initialized-Ensures :
        (m : Method service.World R) (b : Backend service.World)
        → Ensures P (m b).0
        → Ensures P (when_initialized e reply m b).0
    unfolding when_initialized
    when_initialized-Ensures m b h = elim (Bool-cases b.initialized) [
      | inl on ↦ simp on h
      | inr out ↦ simp out (small _)
    ]
