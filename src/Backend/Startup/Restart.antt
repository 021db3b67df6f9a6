-- ===== src/Backend/Startup/Restart.antt =====
-- What `Initialize` leaves, and what it has forgotten of an earlier use of the module.
use infisical_pkcs.Base.{◌≡◌, refl, true, false, arith}
use infisical_pkcs.Errors.{GoError}
use infisical_pkcs.Outcome.{Outcome, ok, err, panic}
use infisical_pkcs.Config.{Config, load_config}
use infisical_pkcs.Slots.{new_session_manager}
use infisical_pkcs.Slots.Sessions.{IsValid}
use infisical_pkcs.Cache.{new_signer_cache, new_cert_data_cache}
use infisical_pkcs.Backend.State.{Env, Backend}
use infisical_pkcs.Backend.Auth.{authenticate}
use infisical_pkcs.Backend.Startup.{new_infisical_client, fresh_state, pre_authenticate, initialize}

pub new_session_manager-IsValid : IsValid new_session_manager
unfolding new_session_manager
new_session_manager-IsValid = record { started = omega arith; entries = tt }

module _ (e : Env) where
  open e use {service, library, host, crypto}

  -- A module that is initialized, with the given configuration, no session, and nothing cached.
  pub record IsFresh (cfg : Config) (b : Backend service.World) : Type 0 where
    pub running : b.initialized ≡ true
    pub configured : b.config ≡ cfg
    pub no_session : b.sessions ≡ new_session_manager
    pub no_signers : b.signer_cache ≡ new_signer_cache cfg.cache.signer_ttl_seconds
    pub no_certs : b.cert_cache ≡ new_cert_data_cache cfg.cache.cert_ttl_seconds

  pre_authenticate-IsFresh :
      (cfg : Config) (b : Backend service.World)
      → let (r, b') = pre_authenticate e cfg (fresh_state e cfg b) in (r ≡ ok tt) × IsFresh cfg b'
  unfolding pre_authenticate fresh_state authenticate
  pre_authenticate-IsFresh cfg b = ground arith

  -- `Initialize` of a module that is not initialized, with a configuration that loads: if the client
  -- can be made, it succeeds, whatever comes of the first login, and leaves a module that is
  -- initialized, with that configuration, no session and empty caches; if the client fails with an
  -- error, that is the error, and only the configuration has changed.
  pub initialize_lem :
      (b : Backend service.World)
      → b.initialized ≡ false
      → (cfg : Config) → load_config library host ≡ ok cfg
      → let made = new_infisical_client host crypto cfg in
        let (r, b') = initialize e b in
        (made ≡ ok tt → (r ≡ ok tt) × IsFresh cfg b')
        × ((f : GoError) → made ≡ err f → (r ≡ err f) × (b' ≡ record b { config = cfg }))
  unfolding initialize
  initialize_lem b out cfg loaded = (
    λ made.
        ground (arith, out, loaded, made, pre_authenticate-IsFresh cfg (record b { config = cfg })),
    λ f made. (ground (arith, out, loaded, made), ground (arith, out, loaded, made)),
  )

  same_state :
      (cfg : Config) (b c : Backend service.World)
      → b.world ≡ c.world
      → fresh_state e cfg (record b { config = cfg })
        ≡ fresh_state e cfg (record c { config = cfg })
  unfolding fresh_state
  same_state cfg b c same = ground (arith, same)

  module _ (b c : Backend service.World) (out : b.initialized ≡ false)
      (out' : c.initialized ≡ false) (same : b.world ≡ c.world) where
    abbrev Forgets : Type 0
    Forgets =
        ((initialize e b).0 ≡ (initialize e c).0)
        × ((initialize e b).0 ≡ ok tt → (initialize e b).1 ≡ (initialize e c).1)

    forgets_client :
        (cfg : Config) (made : Outcome (Unit {0}))
        → load_config library host ≡ ok cfg
        → new_infisical_client host crypto cfg ≡ made
        → Forgets
    unfolding initialize
    forgets_client cfg (ok done) loaded client =
        let state = same_state cfg b c same in
        (
          ground (arith, out, out', loaded, client, state),
          λ h. ground (arith, out, out', loaded, client, state),
        )
    forgets_client cfg (err f) loaded client = (
      ground (arith, out, out', loaded, client),
      λ h. absurd (ground (arith, out, out', loaded, client, h)),
    )
    forgets_client cfg panic loaded client = (
      ground (arith, out, out', loaded, client),
      λ h. absurd (ground (arith, out, out', loaded, client, h)),
    )

    forgets_load : (load : Outcome Config) → load_config library host ≡ load → Forgets
    unfolding initialize
    forgets_load (ok cfg) loaded =
        forgets_client cfg (new_infisical_client host crypto cfg) loaded refl
    forgets_load (err f) loaded =
        (ground (arith, out, out', loaded), λ h. absurd (ground (arith, out, out', loaded, h)))
    forgets_load panic loaded =
        (ground (arith, out, out', loaded), λ h. absurd (ground (arith, out, out', loaded, h)))

  -- A restart forgets: two modules that are not initialized, whatever the configurations, sessions
  -- and caches that they keep from earlier uses, get the same answer from `Initialize` if all
  -- outside them is the same, and are in the same state after it if it succeeds.
  pub restart_forgets :
      (b c : Backend service.World)
      → b.initialized ≡ false
      → c.initialized ≡ false
      → b.world ≡ c.world
      → ((initialize e b).0 ≡ (initialize e c).0)
        × ((initialize e b).0 ≡ ok tt → (initialize e b).1 ≡ (initialize e c).1)
  restart_forgets b c out out' same = forgets_load b c out out' same (load_config library host) refl
