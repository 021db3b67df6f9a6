-- ===== src/Main/Api.antt =====
-- main.go: all the exported functions, as one type of calls, and histories of calls.
pub mod Guarded
pub mod Sessions
pub mod Startup
pub mod History
use infisical_pkcs.Base.{ℕ, Bool, true, false, List, [], ◌∷◌, Option, Bytes}
use infisical_pkcs.Outcome.{Outcome, ok, err, panic}
use infisical_pkcs.Constants.{ckr_ok}
use infisical_pkcs.Slots.{Attribute}
use infisical_pkcs.Backend.State.{Env, Backend, Method, pure}
use infisical_pkcs.Main.Buffers.{AttributeBuffer, ListReply}
use infisical_pkcs.Main.Startup.{c_initialize, c_finalize}
use infisical_pkcs.Main.Slots.{
  InfoReply, refused, info, c_get_info, c_get_slot_list, c_get_slot_info, c_get_token_info,
  c_get_mechanism_list, c_get_mechanism_info,
}
use infisical_pkcs.Main.Sessions.{
  OpenReply, c_open_session, c_close_session, c_close_all_sessions, c_get_session_info, c_login,
  c_logout,
}
use infisical_pkcs.Main.Search.{
  FindReply, c_find_objects_init, c_find_objects, c_find_objects_final,
}
use infisical_pkcs.Main.Attributes.{AttributesReply, c_get_attribute_value}
use infisical_pkcs.Main.Signing.{SignReply, c_sign_init, c_sign, c_sign_update, c_sign_final}
use infisical_pkcs.Main.Unsupported.{Unsupported, unsupported}

-- A call with its arguments, as the functions below take them.
pub data ApiCall : Type 0 where
  initializes finalizes : ApiCall
  gets_info : Bool → ApiCall
  lists_slots : Bool → Option ℕ → ApiCall
  gets_slot_info gets_token_info gets_session_info : ℕ → Bool → ApiCall
  lists_mechanisms : ℕ → Bool → Option ℕ → ApiCall
  gets_mechanism_info : ℕ → ℕ → Bool → ApiCall
  opens : ℕ → Bool → ApiCall
  closes closes_all logs_out find_ends : ℕ → ApiCall
  logs_in sign_updates : ℕ → Option Bytes → ApiCall
  find_starts : ℕ → ℕ → Option (List Attribute) → ApiCall
  finds : ℕ → Option ℕ → ℕ → Bool → ApiCall
  gets_attributes : ℕ → ℕ → ℕ → Option (List AttributeBuffer) → ApiCall
  sign_starts : ℕ → Option ℕ → ℕ → ApiCall
  signs : ℕ → Option Bytes → Bool → Option ℕ → ApiCall
  sign_ends : ℕ → Bool → Option ℕ → ApiCall
  asks_unsupported : Unsupported → ApiCall

abbrev pub info_rv : {A : Type 0} → InfoReply A → ℕ
info_rv (refused rv) = rv
info_rv (info i) = ckr_ok

-- A call with its return value alone.
abbrev pub rv_of : {W R : Type 0} → (R → ℕ) → Method W R → Method W ℕ
rv_of rv m b =
    let (r, b') = m b in
    (elim r [ ok a ↦ ok (rv a) | err failure ↦ err failure | panic ↦ panic ], b')

module _ (e : Env) where
  open e use {service}

  unfoldable pub api_call : ApiCall → Method service.World ℕ
  api_call initializes = c_initialize e
  api_call finalizes = c_finalize e
  api_call (gets_info has_info) = pure (info_rv (c_get_info has_info))
  api_call (lists_slots has_list room) = rv_of (λ r. r.rv) (c_get_slot_list e has_list room)
  api_call (gets_slot_info slot has_info) = rv_of info_rv (c_get_slot_info e slot has_info)
  api_call (gets_token_info slot has_info) = rv_of info_rv (c_get_token_info e slot has_info)
  api_call (gets_session_info sh has_info) = rv_of info_rv (c_get_session_info e sh has_info)
  api_call (lists_mechanisms slot has_list room) =
      rv_of (λ r. r.rv) (c_get_mechanism_list e slot has_list room)
  api_call (gets_mechanism_info slot mech has_info) =
      rv_of info_rv (c_get_mechanism_info e slot mech has_info)
  api_call (opens slot has_handle) = rv_of (λ r. r.rv) (c_open_session e slot has_handle)
  api_call (closes sh) = c_close_session e sh
  api_call (closes_all slot) = c_close_all_sessions e slot
  api_call (logs_out sh) = c_logout e sh
  api_call (find_ends sh) = c_find_objects_final e sh
  api_call (logs_in sh pin) = c_login e sh pin
  api_call (sign_updates sh part) = c_sign_update e sh part
  api_call (find_starts sh count template) = c_find_objects_init e sh count template
  api_call (finds sh address max has_count) =
      rv_of (λ r. r.rv) (c_find_objects e sh address max has_count)
  api_call (gets_attributes sh obj count template) =
      rv_of (λ r. r.rv) (c_get_attribute_value e sh obj count template)
  api_call (sign_starts sh mechanism key) = c_sign_init e sh mechanism key
  api_call (signs sh bytes has_buffer room) = rv_of (λ r. r.rv) (c_sign e sh bytes has_buffer room)
  api_call (sign_ends sh has_buffer room) = rv_of (λ r. r.rv) (c_sign_final e sh has_buffer room)
  api_call (asks_unsupported f) = pure (unsupported f)

  -- The state after a history of calls, whatever they returned.
  unfoldable pub run_api : List ApiCall → Backend service.World → Backend service.World
  run_api [] b = b
  run_api (c ∷ cs) b = run_api cs (api_call c b).1
