-- ===== src/Main/Api/Guarded.antt =====
-- The exported functions before `C_Initialize` and after `C_Finalize`.
use infisical_pkcs.Base.{◌≡◌, Bool, true, false, none, some, arith}
use infisical_pkcs.Outcome.{ok}
use infisical_pkcs.Constants.{ckr_cryptoki_not_initialized}
use infisical_pkcs.Backend.State.{Env, Backend}
use infisical_pkcs.Main.Reply.{when_initialized, plain_call}
use infisical_pkcs.Main.Startup.{c_finalize}
use infisical_pkcs.Main.Slots.{
  c_get_slot_list, c_get_slot_info, c_get_token_info, c_get_mechanism_list, c_get_mechanism_info,
}
use infisical_pkcs.Main.Sessions.{
  c_open_session, c_close_session, c_close_all_sessions, c_get_session_info, c_login, c_logout,
}
use infisical_pkcs.Main.Search.{c_find_objects_init, c_find_objects, c_find_objects_final}
use infisical_pkcs.Main.Attributes.{c_get_attribute_value}
use infisical_pkcs.Main.Signing.{c_sign_init, c_sign, c_sign_update, c_sign_final}
use infisical_pkcs.Main.Api.{
  ApiCall, initializes, finalizes, gets_info, lists_slots, gets_slot_info, gets_token_info,
  gets_session_info, lists_mechanisms, gets_mechanism_info, opens, closes, closes_all, logs_out,
  find_ends, logs_in, sign_updates, find_starts, finds, gets_attributes, sign_starts, signs,
  sign_ends, asks_unsupported, api_call,
}

-- All but `C_Initialize`, `C_GetInfo` and the functions that are not supported.
unfoldable pub needs_module : ApiCall → Bool
needs_module initializes = false
needs_module (gets_info has_info) = false
needs_module (asks_unsupported f) = false
needs_module _ = true

module _ (e : Env) where
  open e use {service}

  -- A module that is not initialized answers every function but `C_Initialize`, `C_GetInfo` and
  -- those that are not supported with CKR_CRYPTOKI_NOT_INITIALIZED, whatever the arguments, and
  -- nothing changes, in the module or outside.
  pub uninitialized_refuses :
      (c : ApiCall) (b : Backend service.World)
      → b.initialized ≡ false
      → needs_module c ≡ true
      → api_call e c b ≡ (ok ckr_cryptoki_not_initialized, b)
  unfolding needs_module api_call when_initialized plain_call c_finalize c_get_slot_list
      c_get_slot_info c_get_token_info c_get_mechanism_list c_get_mechanism_info c_open_session
      c_close_session c_close_all_sessions c_get_session_info c_login c_logout c_find_objects_init
      c_find_objects c_find_objects_final c_get_attribute_value c_sign_init c_sign c_sign_update
      c_sign_final
  uninitialized_refuses initializes b out needs = absurd (ground (arith, needs))
  uninitialized_refuses finalizes b out needs = ground (arith, out)
  uninitialized_refuses (gets_info has_info) b out needs = absurd (ground (arith, needs))
  uninitialized_refuses (lists_slots has_list none) b out needs = ground (arith, out)
  uninitialized_refuses (lists_slots has_list (some room)) b out needs = ground (arith, out)
  uninitialized_refuses (gets_slot_info slot has_info) b out needs = ground (arith, out)
  uninitialized_refuses (gets_token_info slot has_info) b out needs = ground (arith, out)
  uninitialized_refuses (gets_session_info sh has_info) b out needs = ground (arith, out)
  uninitialized_refuses (lists_mechanisms slot has_list none) b out needs = ground (arith, out)
  uninitialized_refuses (lists_mechanisms slot has_list (some room)) b out needs =
      ground (arith, out)
  uninitialized_refuses (gets_mechanism_info slot mech has_info) b out needs = ground (arith, out)
  uninitialized_refuses (opens slot has_handle) b out needs = ground (arith, out)
  uninitialized_refuses (closes sh) b out needs = ground (arith, out)
  uninitialized_refuses (closes_all slot) b out needs = ground (arith, out)
  uninitialized_refuses (logs_out sh) b out needs = ground (arith, out)
  uninitialized_refuses (find_ends sh) b out needs = ground (arith, out)
  uninitialized_refuses (logs_in sh pin) b out needs = ground (arith, out)
  uninitialized_refuses (sign_updates sh none) b out needs = ground (arith, out)
  uninitialized_refuses (sign_updates sh (some part)) b out needs = ground (arith, out)
  uninitialized_refuses (find_starts sh count template) b out needs = ground (arith, out)
  uninitialized_refuses (finds sh none max has_count) b out needs = ground (arith, out)
  uninitialized_refuses (finds sh (some address) max false) b out needs = ground (arith, out)
  uninitialized_refuses (finds sh (some address) max true) b out needs = ground (arith, out)
  uninitialized_refuses (gets_attributes sh obj count none) b out needs = ground (arith, out)
  uninitialized_refuses (gets_attributes sh obj count (some template)) b out needs =
      ground (arith, out)
  uninitialized_refuses (sign_starts sh none key) b out needs = ground (arith, out)
  uninitialized_refuses (sign_starts sh (some mechanism) key) b out needs = ground (arith, out)
  uninitialized_refuses (signs sh none has_buffer room) b out needs = ground (arith, out)
  uninitialized_refuses (signs sh (some bytes) has_buffer none) b out needs = ground (arith, out)
  uninitialized_refuses (signs sh (some bytes) has_buffer (some room)) b out needs =
      ground (arith, out)
  uninitialized_refuses (sign_ends sh has_buffer none) b out needs = ground (arith, out)
  uninitialized_refuses (sign_ends sh has_buffer (some room)) b out needs = ground (arith, out)
  uninitialized_refuses (asks_unsupported f) b out needs = absurd (ground (arith, needs))
