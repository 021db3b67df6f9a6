-- ===== src/Tests/Attributes.antt =====
-- The theorems on attributes and texts at concrete inputs.
use infisical_pkcs.Base.{
  ◌≡◌, refl, All, List, ap, if◌then◌else◌, [], ◌∷◌, none, some, arith, text, ℕ, map,
}
use infisical_pkcs.Base.Map.{lookup}
use infisical_pkcs.Base.Int.{pos}
use infisical_pkcs.Outcome.{ok}
use infisical_pkcs.Constants.{ckr_ok, ckr_buffer_too_small, cka_value, cka_sensitive}
use infisical_pkcs.Slots.{Attribute, get, parse_object_handle, obj_private_key}
use infisical_pkcs.Cache.{get_signer_cache, is_expired}
use infisical_pkcs.Backend.State.{Backend, get_session}
use infisical_pkcs.Backend.Signers.{get_signers, get_signer_by_slot}
use infisical_pkcs.Backend.Attributes.{
  get_attribute_value, attribute_values, attribute_value, plain_attribute, value_attribute,
}
use infisical_pkcs.Backend.Attributes.Results.{IsSealed, one_result_each, private_key-IsSealed}
use infisical_pkcs.Main.Buffers.{write_attributes, sized, filled, untouched}
use infisical_pkcs.Main.Buffers.Values.{
  ask_sizes, ask_values, delivered, two_calls_deliver, stops_at_small,
}
use infisical_pkcs.Tests.Demo.{demo_env, demo_service, demo_backend, demo_session, demo_signer}

-- A key type and a label.
abbrev two_values : List Attribute
two_values =
    record { kind = 0x100; value = some (3 ∷ []) }
    ∷ record { kind = 3; value = some (text "key") }
    ∷ []

two_calls_deliver_example :
    write_attributes
      (ask_values (0x100 ∷ 3 ∷ []) (write_attributes (ask_sizes (0x100 ∷ 3 ∷ [])) two_values).1)
      two_values
    ≡ (ckr_ok, map delivered two_values)
two_calls_deliver_example = (two_calls_deliver (0x100 ∷ 3 ∷ []) two_values refl).1

stops_at_small_example :
    write_attributes
      (record { kind = 0x100; room = some 8 }
        ∷ record { kind = 3; room = some 2 }
        ∷ record { kind = 3; room = some 8 }
        ∷ [])
      (record { kind = 0x100; value = some (3 ∷ []) }
        ∷ record { kind = 3; value = some (text "key") }
        ∷ record { kind = 3; value = some (text "key") }
        ∷ [])
    ≡ (ckr_buffer_too_small, filled (3 ∷ []) ∷ sized 3 ∷ untouched ∷ [])
unfolding write_attributes
stops_at_small_example =
    stops_at_small (record { kind = 0x100; room = some 8 } ∷ [])
      (record { kind = 0x100; value = some (3 ∷ []) } ∷ []) refl (λ room h. ground (arith, h), tt)
      (record { kind = 3; room = some 2 }) (record { kind = 3; room = some 8 } ∷ [])
      (record { kind = 3; value = some (text "key") })
      (record { kind = 3; value = some (text "key") } ∷ []) 2 refl (omega arith)

-- A backend that has just been given its signer.
abbrev known_backend : Backend ℕ
known_backend = record demo_backend {
  signer_cache = record {
    ttl = pos 300;
    entry = some (record { value = demo_signer ∷ []; expires_at = pos 9 });
  };
}

known_there : get 1 known_backend.sessions ≡ some demo_session
unfolding get lookup
known_there = refl

-- The private key of slot 0.
handle_parts : parse_object_handle 0x10000000 ≡ (obj_private_key, 0)
unfolding parse_object_handle
handle_parts = refl

known_signer :
    (get_signer_by_slot demo_service (parse_object_handle 0x10000000).1 known_backend).0
    ≡ ok demo_signer
unfolding parse_object_handle get_signer_by_slot get_signers get_signer_cache is_expired
known_signer = refl

abbrev key_template : List Attribute
key_template =
    record { kind = cka_sensitive; value = none } ∷ record { kind = cka_value; value = none } ∷ []

abbrev key_results : List Attribute
key_results =
    record { kind = cka_sensitive; value = some (1 ∷ []) }
    ∷ record { kind = cka_value; value = some [] }
    ∷ []

gives_key :
    (get_attribute_value demo_env 1 0x10000000 key_template known_backend).0 ≡ ok key_results
unfolding get_attribute_value get_session get lookup parse_object_handle get_signer_by_slot
    get_signers get_signer_cache is_expired attribute_values attribute_value plain_attribute
    value_attribute
gives_key = refl

one_result_each_example :
    map (λ (a : Attribute). a.kind) key_results ≡ map (λ (a : Attribute). a.kind) key_template
one_result_each_example =
    (one_result_each demo_env 1 0x10000000 key_template known_backend demo_session demo_signer
        known_there known_signer).1
      key_results gives_key

private_key-IsSealed_example : All (IsSealed (λ b. (if b then 1 else 0) ∷ [])) key_results
private_key-IsSealed_example =
    private_key-IsSealed demo_env 1 0x10000000 key_template key_results known_backend
      (ap (λ (p : ℕ × ℕ). p.0) handle_parts) gives_key
