-- ===== src/Backend/Startup.antt =====
-- backend.go: `Initialize` and `Finalize`, and `newInfisicalClient` of client.go. The logger that
-- `initLogger` makes is output only.
pub mod Restart
use infisical_pkcs.Base.{
  ℕ, Bool, true, false, not, Option, none, some, Bytes, is_empty, if◌then◌else◌,
}
use infisical_pkcs.Errors.{sentinel, already_initialized, plain}
use infisical_pkcs.Outcome.{Outcome, ok, err, panic}
use infisical_pkcs.Config.{Config, Host, load_config}
use infisical_pkcs.Slots.{new_session_manager}
use infisical_pkcs.Cache.{new_signer_cache, new_cert_data_cache}
use infisical_pkcs.Backend.State.{
  Env, Backend, Method, Crypto, ◌>>=◌, ◌>>◌, pure, lift, gets, modify, require, attempt,
}
use infisical_pkcs.Backend.Auth.{authenticate, has_config_credentials}

-- `newInfisicalClient`, as far as it can fail: the file with the authority's certificate.
unfoldable pub new_infisical_client : Host → Crypto → Config → Outcome (Unit {0})
new_infisical_client host crypto cfg =
    if is_empty cfg.tls.ca_cert_path then ok tt else elim (host.read_file cfg.tls.ca_cert_path) [
      | none ↦ err (plain "failed to read CA cert")
      | some pem ↦ if crypto.accepts_ca pem then ok tt else err (plain "failed to parse CA cert")
    ]

module _ (e : Env) where
  open e use {service, library, host, crypto}

  -- The assignments of `Initialize` once the client is there; a new client has no SDK client yet.
  unfoldable pub fresh_state : Config → Backend service.World → Backend service.World
  fresh_state cfg b = record b {
    config = cfg;
    sdk_ready = false;
    sessions = new_session_manager;
    signer_cache = new_signer_cache cfg.cache.signer_ttl_seconds;
    cert_cache = new_cert_data_cache cfg.cache.cert_ttl_seconds;
    initialized = true;
  }

  -- The login that lets slots be listed without `C_Login`; its failure is only logged.
  unfoldable pub pre_authenticate : Config → Method service.World (Unit {0})
  pre_authenticate cfg =
      if has_config_credentials cfg
      then (attempt (authenticate service cfg.auth.client_id cfg.auth.client_secret) >>= λ logged.
          pure tt)
      else pure tt

  unfoldable pub initialize : Method service.World (Unit {0})
  initialize = do
    started ← gets (λ b. b.initialized)
    require (not started) (sentinel already_initialized)
    cfg ← lift (load_config library host)
    modify (λ b. record b { config = cfg })
    lift (new_infisical_client host crypto cfg)
    modify (fresh_state cfg)
    pre_authenticate cfg

  unfoldable pub finalize : Method service.World (Unit {0})
  finalize b = if not b.initialized then (ok tt, b) else (ok tt, record b { initialized = false })
