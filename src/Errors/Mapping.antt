-- ===== src/Errors/Mapping.antt =====
-- What the return value tells of an error.
use Prim.Native.String.{String}
use infisical_pkcs.Base.{ℕ, Option, none, some, ◌≡◌, refl, ◌≢◌, arith, Bytes}
use infisical_pkcs.Constants.{ckr_ok, ckr_general_error, ckr_buffer_too_small}
use infisical_pkcs.Errors.Defs.{
  GoError, ApiError, wrap, request, map_http_error, map_api_error, map_error_to_rv, as_api,
}

map_api_error_lem :
    (unicode : Bytes → Bytes) (a : ApiError)
    → (map_api_error unicode a ≢ ckr_ok) × (map_api_error unicode a ≢ ckr_buffer_too_small)
unfolding map_api_error map_http_error
map_api_error_lem unicode a = ground arith

-- The last step of `mapErrorToRV`.
api_rv_lem :
    (unicode : Bytes → Bytes) (o : Option ApiError) (rv : ℕ)
    → rv ≡ elim o [ some a ↦ map_api_error unicode a | none ↦ ckr_general_error ]
    → (rv ≢ ckr_ok) × (rv ≢ ckr_buffer_too_small)
api_rv_lem unicode none rv e = ground arith
api_rv_lem unicode (some a) rv e = let h = map_api_error_lem unicode a in ground (arith, h.0, h.1)

-- No error is reported as success, nor as a buffer that is too small (which a caller answers with a
-- larger buffer), and an error keeps its return value under every `%w` and `RequestError` around it.
pub map_error_to_rv_lem :
    (unicode : Bytes → Bytes) (e : GoError)
    → (map_error_to_rv unicode e ≢ ckr_ok)
      × (map_error_to_rv unicode e ≢ ckr_buffer_too_small)
      × ((words : String) → map_error_to_rv unicode (wrap words e) ≡ map_error_to_rv unicode e)
      × ((operation : Bytes)
          → map_error_to_rv unicode (request operation e) ≡ map_error_to_rv unicode e)
unfolding map_error_to_rv
map_error_to_rv_lem unicode e =
    let last =
      api_rv_lem unicode (as_api e)
        (elim (as_api e) [ some a ↦ map_api_error unicode a | none ↦ ckr_general_error ]) refl in
    (ground (arith, last.0), ground (arith, last.1), λ words. refl, λ operation. refl)
