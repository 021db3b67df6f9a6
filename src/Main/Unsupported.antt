-- ===== src/Main/Unsupported.antt =====
-- main.go: the exported functions that the module does not support.
use infisical_pkcs.Base.{ℕ}
use infisical_pkcs.Constants.{ckr_function_not_supported}

pub data Unsupported : Type 0 where
  init_token init_pin set_pin : Unsupported
  create_object destroy_object copy_object set_attribute_value : Unsupported
  encrypt_init encrypt decrypt_init decrypt digest_init digest verify_init verify : Unsupported
  generate_key_pair generate_key wrap_key unwrap_key : Unsupported
  seed_random generate_random get_object_size get_operation_state set_operation_state : Unsupported
  encrypt_update encrypt_final decrypt_update decrypt_final : Unsupported
  digest_update digest_key digest_final : Unsupported
  sign_recover_init sign_recover verify_update verify_final : Unsupported
  verify_recover_init verify_recover derive_key wait_for_slot_event : Unsupported

-- Each of them, whatever its arguments, whether the module is initialized or not.
unfoldable pub unsupported : Unsupported → ℕ
unsupported f = ckr_function_not_supported
