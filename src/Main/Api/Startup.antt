-- ===== src/Main/Api/Startup.antt =====
-- What a start of the module, calls that only read, calls that are refused and `C_FindObjects` do to
-- the sessions.
use infisical_pkcs.Base.{
  ℕ, ◌≡◌, ◌⊎◌, refl, true, List, some, arith, length, if◌then◌else◌, inl, inr,
}
use infisical_pkcs.Base.Int.{of_bits}
use infisical_pkcs.Outcome.{Outcome, panic}
use infisical_pkcs.Config.{Config, load_config}
use infisical_pkcs.Constants.{ckr_ok}
use infisical_pkcs.Slots.{new_session_manager}
use infisical_pkcs.Backend.State.{Env, Backend, Method, ◌>>=◌, pure, lift}
use infisical_pkcs.Backend.Auth.{authenticate}
use infisical_pkcs.Backend.Startup.{fresh_state, pre_authenticate, initialize}
use infisical_pkcs.Backend.Startup.Restart.{new_session_manager-IsValid}
use infisical_pkcs.Backend.Calls.{Call, step}
use infisical_pkcs.Backend.Find.{find_objects}
use infisical_pkcs.Main.Reply.{catch_error, when_initialized}
use infisical_pkcs.Main.Search.{c_find_objects, FindReply, find_rv, slice_panics}
use infisical_pkcs.Main.Api.{finds, api_call}
use infisical_pkcs.Main.Api.Sessions.{
  Grows, steady-Grows, same-IsSteady, same-Grows, step-Grows, then_pure-state, caught-Grows,
  when_initialized-Grows,
}

module _ (e : Env) where
  open e use {service, library, host, crypto}

  -- `Initialize` leaves the sessions as they are, or starts with none.
  load_config-sessions :
      (b : Backend service.World) (load : Outcome Config)
      → load_config library host ≡ load
      → ((initialize e b).1.sessions ≡ b.sessions)
        ⊎ ((initialize e b).1.sessions ≡ new_session_manager)
  unfolding initialize pre_authenticate fresh_state authenticate
  load_config-sessions b load loaded = ground (arith, loaded)

  pub initialize-Grows : (b : Backend service.World) → Grows b (initialize e b).1
  initialize-Grows b = elim (load_config-sessions b (load_config library host) refl) [
    | inl same ↦ steady-Grows b (initialize e b).1 (same-IsSteady b (initialize e b).1 same)
    | inr new ↦ record {
      valid = λ room v. rw new new_session_manager-IsValid;
      next = rw new (unfold new_session_manager in omega arith);
    }
  ]

  -- A call that leaves the sessions, and then a value made of its result.
  pub read-Grows :
      {A R : Type 0} (reply : ℕ → R) (m : Method service.World A) (f : A → R)
      (b : Backend service.World)
      → (m b).1.sessions ≡ b.sessions
      → Grows b (when_initialized e reply (catch_error e reply (m >>= λ a. pure (f a))) b).1
  read-Grows reply m f b same =
      caught-Grows e reply (m >>= λ a. pure (f a)) b
        (rw (then_pure-state m f b) (steady-Grows b (m b).1 (same-IsSteady b (m b).1 same)))

  -- A call that is refused for its arguments.
  pub refused-Grows :
      {R : Type 0} (reply : ℕ → R) (r : R) (b : Backend service.World)
      → Grows b (when_initialized e reply (pure r) b).1
  refused-Grows reply r b = when_initialized-Grows e reply (pure r) b (same-Grows b)

  pub finds-Grows :
      (sh address max : ℕ) (b : Backend service.World)
      → Grows b (api_call e (finds sh (some address) max true) b).1
  unfolding api_call c_find_objects step
  finds-Grows sh address max b =
      let searched = step-Grows e (Call.finds sh (of_bits max)) b in
      let ending : List ℕ → Method service.World FindReply = λ objects.
        if slice_panics address (of_bits max)
        then lift {W = service.World} panic
        else pure
            (record { rv = ckr_ok; objects = objects; object_count = some (length objects) }) in
      let same : ((find_objects e sh (of_bits max) >>= ending) b).1
          ≡ (find_objects e sh (of_bits max) b).1 =
        ground arith in
      caught-Grows e find_rv (find_objects e sh (of_bits max) >>= ending) b (rw same searched)
