-- ===== src/Backend/State.antt =====
-- backend.go: `InfisicalBackend`, and the shape of its methods. A method changes the state and
-- returns a value or an error, or panics; what it wrote before an error stays written.
use infisical_pkcs.Base.{ℕ, Bool, Option, none, some, Bytes, if◌then◌else◌}
use infisical_pkcs.Errors.{GoError, sentinel, session_handle_invalid}
use infisical_pkcs.Outcome.{Outcome, ok, err, panic}
use infisical_pkcs.Slots.{SessionManager, Session, get, put}
use infisical_pkcs.Config.{Config, Library, Host}
use infisical_pkcs.Cache.{SignerCache, CertDataCache}
use infisical_pkcs.Mechanism.{Asn1}
use infisical_pkcs.Scope.{SigningContext}
use infisical_pkcs.Client.{Service, SignerResponse}

-- The curves that the code tells apart.
pub data Curve : Type 0 where
  p256 p384 p521 other_curve : Curve

-- A certificate's public key: RSA with the bytes of `N` and `E`, EC with its point, or another.
pub data PublicKey : Type 0 where
  rsa_key : Bytes → Bytes → PublicKey
  ec_key : Curve → ℕ → ℕ → PublicKey
  other_key : PublicKey

pub record Certificate : Type 0 where
  pub raw_subject : Bytes
  pub raw_issuer : Bytes
  pub serial_number : Bytes
  pub public_key : PublicKey

-- Hashes, encodings and certificates, which the code takes from Go's packages.
pub record Crypto : Type 0 where
  pub sha256 : Bytes → Bytes
  pub sha384 : Bytes → Bytes
  pub sha512 : Bytes → Bytes
  pub base64_encode : Bytes → Bytes
  pub base64_decode : Bytes → Option Bytes
  pub hex_encode : Bytes → Bytes
  pub marshal_text : Bytes → Option Bytes
  -- the bytes of the first PEM block
  pub pem_decode : Bytes → Option Bytes
  pub parse_certificate : Bytes → Option Certificate
  -- `AppendCertsFromPEM`
  pub accepts_ca : Bytes → Bool

-- All that the module takes from outside. `context` is what `currentSigningContext` captured once.
pub record Env : Type 1 where
  pub service : Service
  pub library : Library
  pub host : Host
  pub asn1 : Asn1
  pub crypto : Crypto
  pub context : SigningContext
  -- `pkcs11.NewAttribute` of a Boolean and of an unsigned number
  pub bool_value : Bool → Bytes
  pub uint_value : ℕ → Bytes

-- `sdk_ready` is `client.sdkClient != nil`; `world` is the state of everything outside.
pub record Backend (W : Type 0) : Type 0 where
  pub initialized : Bool
  pub config : Config
  pub sdk_ready : Bool
  pub sessions : SessionManager
  pub signer_cache : SignerCache SignerResponse
  pub cert_cache : CertDataCache
  pub world : W

abbrev pub Method : Type 0 → Type 0 → Type 0
Method W A = Backend W → Outcome A × Backend W

module _ {W : Type 0} where
  infixl 5 ◌>>=◌ ◌>>◌
  abbrev pub ◌>>=◌ : {A B : Type 0} → Method W A → (A → Method W B) → Method W B
  ◌>>=◌ m f b =
      let (r, b') = m b in elim r [ ok a ↦ f a b' | err e ↦ (err e, b') | panic ↦ (panic, b') ]

  abbrev pub ◌>>◌ : {B : Type 0} → Method W (Unit {0}) → Method W B → Method W B
  m >> k = m >>= λ _. k

  abbrev pub pure : {A : Type 0} → A → Method W A
  pure a b = (ok a, b)

  abbrev pub fail : {A : Type 0} → GoError → Method W A
  fail e b = (err e, b)

  abbrev pub lift : {A : Type 0} → Outcome A → Method W A
  lift r b = (r, b)

  -- The outcome of a call as a value, for code that looks at its error; a panic goes on.
  abbrev pub attempt : {A : Type 0} → Method W A → Method W (Outcome A)
  attempt m b =
      let (r, b') = m b in
      elim r [ ok a ↦ (ok (ok a), b') | err e ↦ (ok (err e), b') | panic ↦ (panic, b') ]

  abbrev pub gets : {A : Type 0} → (Backend W → A) → Method W A
  gets f b = (ok (f b), b)

  abbrev pub modify : (Backend W → Backend W) → Method W (Unit {0})
  modify f b = (ok tt, f b)

  abbrev pub set_sessions : SessionManager → Backend W → Backend W
  set_sessions m b = record b { sessions = m }

  abbrev pub require : Bool → GoError → Method W (Unit {0})
  require c e b = (if c then ok tt else err e, b)

  abbrev pub or_fail : {A : Type 0} → Option A → GoError → Method W A
  or_fail none e = fail e
  or_fail (some a) e = pure a

  -- A call that reaches outside the module.
  abbrev pub outside : {A : Type 0} → (W → Outcome A × W) → Method W A
  outside f b = let (r, w) = f b.world in (r, record b { world = w })

  -- `sess, ok := b.sessions.get(sh)`, with the error if it is not there
  unfoldable pub get_session : ℕ → Method W Session
  get_session sh b = elim (get sh b.sessions) [
    | none ↦ (err (sentinel session_handle_invalid), b)
    | some s ↦ (ok s, b)
  ]

  -- A write through the pointer to a session.
  unfoldable pub write_session : ℕ → Session → Method W (Unit {0})
  write_session sh s b = (ok tt, set_sessions (put sh s b.sessions) b)
