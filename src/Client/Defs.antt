-- ===== src/Client/Defs.antt =====
-- client.go. The HTTP client (`resty`), Infisical's SDK, `encoding/json` and the machine's clock are
-- the parameter `Service`: each call reads and changes the outside world. What is modelled is how
-- the code builds its requests and reads the answers.
use Prim.Native.String.{String}
use infisical_pkcs.Base.{
  ℕ, zero, suc, ◌+◌, ◌/◌, ◌%◌, Bool, not, List, [], ◌∷◌, ◌++◌, Option, Bytes, text, is_empty,
  to_lower, leb, ltb, if◌then◌else◌,
}
use infisical_pkcs.Base.Int.{ℤ}
use infisical_pkcs.Errors.{ApiError, api, request, plain}
use infisical_pkcs.Outcome.{Outcome, ok, err}
use infisical_pkcs.Scope.{ClientMetadata, SigningScope}

pub record SignerResponse : Type 0 where
  pub id : Bytes
  pub name : Bytes
  pub status : Bytes
  pub certificate_id : Bytes
  pub key_algorithm_name : Bytes
  pub approval_policy_id : Option Bytes

unfoldable pub key_algorithm : (unicode : Bytes → Bytes) → SignerResponse → Bytes
unfolding to_lower
key_algorithm unicode s = to_lower unicode s.key_algorithm_name

-- `payload` is the field `Data`, in Base64.
pub record SignRequest : Type 0 where
  pub payload : Bytes
  pub signing_algorithm : Bytes
  pub is_digest : Bool
  pub client_metadata : ClientMetadata

pub record ApprovalRequest : Type 0 where
  pub justification : Bytes
  pub requested_signings : ℤ
  pub requested_window_duration : Bytes
  pub scope : SigningScope

pub record ApprovalRequestResponse : Type 0 where
  pub id : Bytes
  pub status : Bytes

pub record ApiErrorBody : Type 0 where
  pub message : Bytes
  pub error : Bytes
  pub has_pending_request : Bool

pub data Body : Type 0 where
  get_body : Body
  sign_body : SignRequest → Body
  approval_body : ApprovalRequest → Body

pub record HttpRequest : Type 0 where
  pub path : Bytes
  pub auth_token : Bytes
  pub body : Body

-- What `resty` returns: an error (the transport's, or that the result could not be decoded), or a
-- response with its status and body.
pub data Exchange : Type 0 where
  failed : String → Exchange
  responded : ℕ → Bytes → Exchange

pub record Service : Type 1 where
  pub World : Type 0
  -- `time.Now`
  pub clock : World → ℤ
  pub execute : HttpRequest → World → Exchange × World
  -- `Auth().UniversalAuthLogin`, with the error of a refused login
  pub universal_auth_login : Bytes → Bytes → World → Option String × World
  -- `Auth().GetAccessToken`
  pub access_token : World → Bytes
  -- What `SetResult` leaves for a body that `resty` accepted
  pub decode_signers : Bytes → List SignerResponse
  pub decode_certificate : Bytes → Bytes
  pub decode_signature : Bytes → Bytes
  pub decode_approval : Bytes → ApprovalRequestResponse
  -- `json.Unmarshal` into an `apiErrorBody`: whether it succeeded, and what it left there
  pub unmarshal_error : Bytes → Bool × ApiErrorBody

-- The decimal digits of a number, in front of `acc`. A number has fewer digits than its value and
-- one more, so `suc n` rounds are enough.
unfoldable pub decimal_from : ℕ → ℕ → Bytes → Bytes
decimal_from zero n acc = acc
decimal_from (suc fuel) n acc =
    let rest = decimal_from fuel (n / 10) ((b'0' + n % 10) ∷ acc) in
    if ltb n 10 then (b'0' + n) ∷ acc else rest

unfoldable pub decimal : ℕ → Bytes
unfolding decimal_from
decimal n = decimal_from (suc n) n []

-- `resp.IsError()`
abbrev is_error : ℕ → Bool
is_error status = leb 400 status

abbrev signers_path : Bytes
signers_path = text "/api/v1/cert-manager/signers"

abbrev signer_path : Bytes → Bytes → Bytes
signer_path signer_id suffix = signers_path ++ text "/" ++ signer_id ++ suffix

module _ (v : Service) where
  open v use {World}

  unfoldable pub new_api_error : Bytes → ℕ → Bytes → ApiError
  unfolding decimal
  new_api_error operation status raw =
      let (success, body) = v.unmarshal_error raw in
      record {
        status_code = status;
        message =
            if success
            then (if not (is_empty body.message)
                then body.message
                else if not (is_empty body.error)
                then body.error
                else text "HTTP " ++ decimal status)
            else text "HTTP " ++ decimal status;
        operation = operation;
        code = body.error;
        has_pending_request = body.has_pending_request;
      }

  -- The steps that the four API calls share: send, then read the answer.
  unfoldable pub call_api :
      {R : Type 0} → Bytes → HttpRequest → (Bytes → R) → World → Outcome R × World
  unfolding new_api_error
  call_api {R} operation req decode w =
      let (exchange, w') = v.execute req w in (read_answer exchange, w')
    where
      read_answer : Exchange → Outcome R
      read_answer (failed words) = err (request operation (plain words))
      read_answer (responded status raw) =
          if is_error status
          then err (api (new_api_error operation status raw))
          else ok (decode raw)

  -- With the query `limit=100`.
  unfoldable pub list_signers : Bytes → World → Outcome (List SignerResponse) × World
  unfolding call_api
  list_signers token =
      call_api (text "list-signers")
        (record { path = signers_path ++ text "?limit=100"; auth_token = token; body = get_body })
        v.decode_signers

  unfoldable pub get_certificate : Bytes → Bytes → World → Outcome Bytes × World
  unfolding call_api
  get_certificate token signer_id =
      call_api (text "get-certificate")
        (record {
          path = signer_path signer_id (text "/certificate");
          auth_token = token;
          body = get_body;
        })
        v.decode_certificate

  unfoldable pub sign : Bytes → Bytes → SignRequest → World → Outcome Bytes × World
  unfolding call_api
  sign token signer_id req =
      call_api (text "sign")
        (record {
          path = signer_path signer_id (text "/sign");
          auth_token = token;
          body = sign_body req;
        })
        v.decode_signature

  unfoldable pub request_approval :
      Bytes → Bytes → ApprovalRequest → World → Outcome ApprovalRequestResponse × World
  unfolding call_api
  request_approval token signer_id req =
      call_api (text "request-approval")
        (record {
          path = signer_path signer_id (text "/requests");
          auth_token = token;
          body = approval_body req;
        })
        v.decode_approval
