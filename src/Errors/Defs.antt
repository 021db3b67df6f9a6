-- ===== src/Errors/Defs.antt =====
-- errors.go: the errors, and how they become return values.
use Prim.Native.String.{String}
use infisical_pkcs.Base.{
  ℕ, Bool, true, false, not, ◌&&◌, ◌||◌, Option, none, some, Bytes, text, contains, bytes_eq,
  to_lower, ◌==◌, leb, if◌then◌else◌,
}
use infisical_pkcs.Constants.{
  ckr_user_not_logged_in, ckr_general_error, ckr_key_handle_invalid, ckr_data_invalid,
  ckr_device_error, ckr_mechanism_invalid, ckr_session_handle_invalid, ckr_slot_id_invalid,
  ckr_operation_not_initialized, ckr_operation_active,
}

pub data Sentinel : Type 0 where
  not_logged_in session_handle_invalid slot_id_invalid sign_not_active : Sentinel
  sign_already_active find_already_active find_not_active already_initialized : Sentinel

pub record ApiError : Type 0 where
  pub status_code : ℕ
  pub message : Bytes
  pub operation : Bytes
  pub code : Bytes
  pub has_pending_request : Bool

pub data GoError : Type 0 where
  sentinel : Sentinel → GoError
  api : ApiError → GoError
  -- `RequestError`, with its operation and the error that it wraps
  request : Bytes → GoError → GoError
  -- `fmt.Errorf` with one `%w`
  wrap : String → GoError → GoError
  -- `errors.New` or `fmt.Errorf` without `%w`, and errors of other packages
  plain : String → GoError

unfoldable pub is_approval_required : ApiError → Bool
unfolding bytes_eq
is_approval_required e = e.status_code == 403 && bytes_eq e.code (text "ApprovalRequired")

abbrev pub same_sentinel : Sentinel → Sentinel → Bool
same_sentinel not_logged_in not_logged_in = true
same_sentinel session_handle_invalid session_handle_invalid = true
same_sentinel slot_id_invalid slot_id_invalid = true
same_sentinel sign_not_active sign_not_active = true
same_sentinel sign_already_active sign_already_active = true
same_sentinel find_already_active find_already_active = true
same_sentinel find_not_active find_not_active = true
same_sentinel already_initialized already_initialized = true
same_sentinel _ _ = false

-- `errors.Is(err, s)`
unfoldable pub is_sentinel : GoError → Sentinel → Bool
is_sentinel (sentinel t) s = same_sentinel t s
is_sentinel (api e) s = false
is_sentinel (request operation e) s = is_sentinel e s
is_sentinel (wrap words e) s = is_sentinel e s
is_sentinel (plain words) s = false

-- `errors.As(err, &apiErr)`
unfoldable pub as_api : GoError → Option ApiError
as_api (sentinel t) = none
as_api (api e) = some e
as_api (request operation e) = as_api e
as_api (wrap words e) = as_api e
as_api (plain words) = none

unfoldable pub is_unsupported_mechanism_message : (unicode : Bytes → Bytes) → Bytes → Bool
unfolding contains to_lower
is_unsupported_mechanism_message unicode msg =
    let m = to_lower unicode msg in
    if contains m (text "mechanism_invalid")
    then true
    else if not (contains m (text "mechanism")) && not (contains m (text "algorithm"))
    then false
    else contains m (text "not supported")
      || contains m (text "does not support")
      || contains m (text "unsupported")

unfoldable pub map_http_error : ℕ → ℕ
map_http_error status =
    if status == 401
    then ckr_user_not_logged_in
    else if status == 403
    then ckr_general_error
    else if status == 404
    then ckr_key_handle_invalid
    else if status == 400
    then ckr_data_invalid
    else if leb 500 status
    then ckr_device_error
    else ckr_general_error

unfoldable pub map_api_error : (unicode : Bytes → Bytes) → ApiError → ℕ
unfolding map_http_error
map_api_error unicode e =
    if e.status_code == 400 && is_unsupported_mechanism_message unicode e.message
    then ckr_mechanism_invalid
    else map_http_error e.status_code

unfoldable pub map_error_to_rv : (unicode : Bytes → Bytes) → GoError → ℕ
unfolding is_sentinel as_api
map_error_to_rv unicode err =
    if is_sentinel err not_logged_in
    then ckr_user_not_logged_in
    else if is_sentinel err session_handle_invalid
    then ckr_session_handle_invalid
    else if is_sentinel err slot_id_invalid
    then ckr_slot_id_invalid
    else if is_sentinel err sign_not_active || is_sentinel err find_not_active
    then ckr_operation_not_initialized
    else if is_sentinel err sign_already_active || is_sentinel err find_already_active
    then ckr_operation_active
    else elim (as_api err) [ some e ↦ map_api_error unicode e | none ↦ ckr_general_error ]
