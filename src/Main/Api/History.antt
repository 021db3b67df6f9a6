-- ===== src/Main/Api/History.antt =====
-- The invariant of the sessions, along whole histories of exported functions.
use infisical_pkcs.Base.{
  ℕ, ◌+◌, ◌^◌, ◌<◌, ◌≡◌, true, false, List, [], ◌∷◌, none, some, arith, length, take, ltb,
  if◌then◌else◌, Bool-cases, inl, inr,
}
use infisical_pkcs.Constants.{ckr_ok, ckr_arguments_bad}
use infisical_pkcs.Slots.Sessions.{IsValid}
use infisical_pkcs.Backend.State.{Env, Backend, ◌>>=◌, pure, get_session}
use infisical_pkcs.Backend.Startup.{initialize, finalize}
use infisical_pkcs.Backend.Calls.{Call, step}
use infisical_pkcs.Backend.Signers.{get_slot_list}
use infisical_pkcs.Backend.Keys.{get_mechanism_list}
use infisical_pkcs.Backend.Info.{get_slot_info, get_token_info}
use infisical_pkcs.Backend.Invariant.{sign_data-IsValid, sign_final-IsValid}
use infisical_pkcs.Backend.Invariant.Handles.{sign_data-Kept, sign_final-Kept}
use infisical_pkcs.Backend.Login.{
  open_session_on, get_session_info, close_session, close_all_sessions, login, logout,
}
use infisical_pkcs.Backend.Find.{find_objects_init, find_objects_final}
use infisical_pkcs.Backend.Signing.{sign_data, sign_final, sign_init, sign_update}
use infisical_pkcs.Backend.Frame.{get_signers-Frame, get_signer_by_slot-Frame}
use infisical_pkcs.Backend.Attributes.{get_attribute_value}
use infisical_pkcs.Backend.Attributes.Results.{get_attribute_value-Frame}
use infisical_pkcs.Main.Reply.{when_initialized, rv_only}
use infisical_pkcs.Main.Startup.{c_initialize, c_finalize}
use infisical_pkcs.Main.Slots.{
  refused, info, fill_slot_info, fill_token_info, c_get_slot_list, c_get_slot_info,
  c_get_token_info, c_get_mechanism_list, c_get_mechanism_info,
}
use infisical_pkcs.Main.Sessions.{
  c_open_session, c_close_session, c_close_all_sessions, c_get_session_info, c_login, c_logout,
  OpenReply, open_rv, pin_of, fill_session_info,
}
use infisical_pkcs.Main.Buffers.{list_rv, deliver_list, write_attributes}
use infisical_pkcs.Main.Search.{
  c_find_objects_init, c_find_objects, c_find_objects_final, max_template_attrs, find_rv,
}
use infisical_pkcs.Main.Attributes.{c_get_attribute_value, attributes_rv, written, asked}
use infisical_pkcs.Main.Signing.{
  c_sign_init, c_sign, c_sign_update, c_sign_final, rv_reply, deliver,
}
use infisical_pkcs.Main.Api.{
  ApiCall, initializes, finalizes, gets_info, lists_slots, gets_slot_info, gets_token_info,
  gets_session_info, lists_mechanisms, gets_mechanism_info, opens, closes, closes_all, logs_out,
  find_ends, logs_in, sign_updates, find_starts, finds, gets_attributes, sign_starts, signs,
  sign_ends, asks_unsupported, api_call, run_api,
}
use infisical_pkcs.Main.Api.Startup.{initialize-Grows, read-Grows, refused-Grows, finds-Grows}
use infisical_pkcs.Main.Api.Sessions.{
  Grows, steady-Grows, same-IsSteady, same-Grows, step-Grows, then_pure-state, plain_call-Grows,
  caught-Grows, signing-Grows, when_initialized-Grows,
}

module _ (e : Env) where
  open e use {service}

  api_call-Grows : (c : ApiCall) (b : Backend service.World) → Grows b (api_call e c b).1
  unfolding api_call c_initialize c_finalize finalize c_get_slot_list get_slot_list c_get_slot_info
      get_slot_info c_get_token_info get_token_info c_get_mechanism_list get_mechanism_list
      c_get_mechanism_info c_open_session c_close_session c_close_all_sessions c_get_session_info
      get_session_info c_login c_logout c_find_objects_init c_find_objects c_find_objects_final
      c_get_attribute_value c_sign_init c_sign c_sign_update c_sign_final step
  api_call-Grows initializes b =
      let same : (c_initialize e b).1 ≡ (initialize e b).1 = ground arith in
      rw same (initialize-Grows e b)
  api_call-Grows finalizes b =
      steady-Grows b (c_finalize e b).1
        (same-IsSteady b (c_finalize e b).1 (unfold when_initialized in ground arith))
  api_call-Grows (gets_info has_info) b = same-Grows b
  api_call-Grows (lists_slots has_list none) b =
      refused-Grows e list_rv (list_rv ckr_arguments_bad) b
  api_call-Grows (lists_slots has_list (some room)) b =
      read-Grows e list_rv (get_slot_list service)
        (λ slots. deliver_list (if has_list then some room else none) slots) b
        (ground (arith, get_signers-Frame service b))
  api_call-Grows (gets_slot_info slot true) b =
      read-Grows e refused (get_slot_info service slot) (λ i. info (fill_slot_info i)) b
        (ground (arith, get_signer_by_slot-Frame service slot b))
  api_call-Grows (gets_slot_info slot false) b =
      refused-Grows e refused (refused ckr_arguments_bad) b
  api_call-Grows (gets_token_info slot true) b =
      read-Grows e refused (get_token_info service slot) (λ i. info (fill_token_info i)) b
        (ground (arith, get_signer_by_slot-Frame service slot b))
  api_call-Grows (gets_token_info slot false) b =
      refused-Grows e refused (refused ckr_arguments_bad) b
  api_call-Grows (gets_session_info sh true) b =
      read-Grows e refused (get_session_info service sh) (λ i. info (fill_session_info i)) b
        (unfold get_session in ground arith)
  api_call-Grows (gets_session_info sh false) b =
      refused-Grows e refused (refused ckr_arguments_bad) b
  api_call-Grows (lists_mechanisms slot has_list none) b =
      refused-Grows e list_rv (list_rv ckr_arguments_bad) b
  api_call-Grows (lists_mechanisms slot has_list (some room)) b =
      read-Grows e list_rv (get_mechanism_list e slot)
        (λ mechs. deliver_list (if has_list then some room else none) mechs) b
        (ground (arith, get_signer_by_slot-Frame service slot b))
  api_call-Grows (gets_mechanism_info slot mech has_info) b =
      when_initialized-Grows e refused (pure _) b (same-Grows b)
  api_call-Grows (opens slot true) b =
      let opened : ℕ → OpenReply = λ handle. record { rv = ckr_ok; handle = some handle } in
      caught-Grows e open_rv (open_session_on service slot >>= λ handle. pure (opened handle)) b (
        rw (then_pure-state (open_session_on service slot) opened b)
          (step-Grows e (Call.opens slot) b))
  api_call-Grows (opens slot false) b = refused-Grows e open_rv (open_rv ckr_arguments_bad) b
  api_call-Grows (closes sh) b =
      plain_call-Grows e (close_session service sh) b (step-Grows e (Call.closes sh) b)
  api_call-Grows (closes_all slot) b =
      plain_call-Grows e (close_all_sessions service slot) b (step-Grows e (Call.closes_all slot) b)
  api_call-Grows (logs_out sh) b =
      plain_call-Grows e (logout service sh) b (step-Grows e (Call.logs_out sh) b)
  api_call-Grows (find_ends sh) b =
      plain_call-Grows e (find_objects_final e sh) b (step-Grows e (Call.find_ends sh) b)
  api_call-Grows (logs_in sh pin) b =
      plain_call-Grows e (login service sh (pin_of pin)) b
        (step-Grows e (Call.logs_in sh (pin_of pin)) b)
  api_call-Grows (sign_updates sh none) b = refused-Grows e rv_only ckr_arguments_bad b
  api_call-Grows (sign_updates sh (some part)) b =
      plain_call-Grows e (sign_update e sh part) b (step-Grows e (Call.sign_updates sh part) b)
  api_call-Grows (find_starts sh count template) b =
      elim (Bool-cases (ltb max_template_attrs count)) [
        | inl many ↦ simp many (refused-Grows e rv_only ckr_arguments_bad b)
        | inr few ↦ simp few (
            plain_call-Grows e (find_objects_init e sh _) b
              (step-Grows e (Call.find_starts sh _) b))
      ]
  api_call-Grows (finds sh none max has_count) b =
      refused-Grows e find_rv (find_rv ckr_arguments_bad) b
  api_call-Grows (finds sh (some address) max false) b =
      refused-Grows e find_rv (find_rv ckr_arguments_bad) b
  api_call-Grows (finds sh (some address) max true) b = finds-Grows e sh address max b
  api_call-Grows (gets_attributes sh obj count none) b =
      refused-Grows e attributes_rv (attributes_rv ckr_arguments_bad) b
  api_call-Grows (gets_attributes sh obj count (some template)) b =
      elim (Bool-cases (ltb max_template_attrs count)) [
        | inl many ↦ simp many (refused-Grows e attributes_rv (attributes_rv ckr_arguments_bad) b)
        | inr few ↦ simp few (
            read-Grows e attributes_rv (get_attribute_value e sh obj (asked (take count template)))
              (λ results. written (write_attributes (take count template) results)) b
              (get_attribute_value-Frame e sh obj (asked (take count template)) b).same_sessions)
      ]
  api_call-Grows (sign_starts sh none key) b = refused-Grows e rv_only ckr_arguments_bad b
  api_call-Grows (sign_starts sh (some mechanism) key) b =
      plain_call-Grows e (sign_init e sh (mechanism ∷ []) key) b
        (step-Grows e (Call.sign_starts sh (mechanism ∷ []) key) b)
  api_call-Grows (signs sh none has_buffer room) b =
      refused-Grows e rv_reply (rv_reply ckr_arguments_bad) b
  api_call-Grows (signs sh (some bytes) has_buffer none) b =
      refused-Grows e rv_reply (rv_reply ckr_arguments_bad) b
  api_call-Grows (signs sh (some bytes) has_buffer (some room)) b =
      when_initialized-Grows e rv_reply (deliver e sh has_buffer room (sign_data e sh bytes)) b (
        signing-Grows e sh room has_buffer (sign_data e sh bytes) b
          (record { valid = sign_data-IsValid e sh bytes b; next = sign_data-Kept e sh bytes b }))
  api_call-Grows (sign_ends sh has_buffer none) b =
      refused-Grows e rv_reply (rv_reply ckr_arguments_bad) b
  api_call-Grows (sign_ends sh has_buffer (some room)) b =
      when_initialized-Grows e rv_reply (deliver e sh has_buffer room (sign_final e sh)) b (
        signing-Grows e sh room has_buffer (sign_final e sh) b
          (record { valid = sign_final-IsValid e sh b; next = sign_final-Kept e sh b }))
  api_call-Grows (asks_unsupported f) b = same-Grows b

  -- After any history of calls of the exported functions, `C_Initialize` and `C_Finalize` among them,
  -- whatever their arguments, whatever the service answers and whether they succeed, fail or panic,
  -- valid sessions are still valid: handles are positive and below the next one, search positions
  -- within the results, sign buffers of at most 16 MiB and empty outside an operation, key indices of
  -- 28 bits. There must be a handle of 64 bits left for every call.
  pub run_api-IsValid :
      (calls : List ApiCall) (b : Backend service.World)
      → IsValid b.sessions
      → b.sessions.next_id + length calls < 2 ^ 64
      → IsValid (run_api e calls b).sessions
  unfolding run_api
  run_api-IsValid [] b v room = v
  run_api-IsValid (c ∷ cs) b v room =
      let h = api_call-Grows c b in
      run_api-IsValid cs (api_call e c b).1 (h.valid (omega arith) v) (omega (arith, h.next))
