-- ===== src/Main/Bounds.antt =====
-- What the exported functions write to the caller's arrays stays within them.
use infisical_pkcs.Base.{
  ℕ, ◌≤◌, refl, Bool, true, false, List, [], ◌∷◌, none, some, arith, Bytes, length, take, ltb,
  if◌then◌else◌, Bool-cases, inl, inr, is_empty,
}
use infisical_pkcs.Backend.State.{Env, Backend, Method, ◌>>=◌}
use infisical_pkcs.Backend.Attributes.{get_attribute_value}
use infisical_pkcs.Backend.Signers.{get_slot_list}
use infisical_pkcs.Backend.Keys.{get_mechanism_list}
use infisical_pkcs.Backend.Signing.{
  sign_data, sign_final, cache_sign_result, clear_sign_state_by_handle, estimate_signature_size,
}
use infisical_pkcs.Constants.{ckr_ok}
use infisical_pkcs.Main.Signing.Protocol.{too_small, delivered}
use infisical_pkcs.Main.Buffers.Values.{IsWithin, write_attributes-IsWithin}
use infisical_pkcs.Main.Attributes.{
  AttributesReply, attributes_rv, written, asked, c_get_attribute_value,
}
use infisical_pkcs.Main.Ensures.{
  Ensures, bind-Ensures, pure-Ensures, catch_error-Ensures, when_initialized-Ensures,
}
use infisical_pkcs.Main.Buffers.{
  ListReply, list_rv, write_attributes, deliver_list, AttributeBuffer,
}
use infisical_pkcs.Main.Search.Bounds.{FitsFind, c_find_objects-Fits}
use infisical_pkcs.Main.Slots.{c_get_slot_list, c_get_mechanism_list}
use infisical_pkcs.Main.Search.{max_template_attrs, c_find_objects}
use infisical_pkcs.Main.Signing.{
  SignReply, rv_reply, c_sign, c_sign_final, copy_signature, size_query, deliver,
}

-- The signature and the elements that were written fit into an array of `room`.
abbrev pub FitsSign : ℕ → SignReply → Type 0
FitsSign room reply = elim reply.copied [ none ↦ Unit | some signature ↦ length signature ≤ room ]

abbrev pub FitsList : ℕ → ListReply → Type 0
FitsList room reply = elim reply.written [ none ↦ Unit | some items ↦ length items ≤ room ]

abbrev sized_reply : ℕ → SignReply
sized_reply size = record { rv = ckr_ok; copied = none; stored_length = some size }

abbrev pub FitsValues : List AttributeBuffer → AttributesReply → Type 0
FitsValues template reply = IsWithin template reply.attributes

nothing-IsWithin : (slots : List AttributeBuffer) → IsWithin slots []
nothing-IsWithin [] = tt
nothing-IsWithin (slot ∷ slots) = tt

module _ (e : Env) where
  open e use {service}

  copy_signature-Fits :
      (sh room : ℕ) (signature : Bytes) (b : Backend service.World)
      → Ensures (FitsSign room) (copy_signature e sh room signature b).0
  unfolding copy_signature
  copy_signature-Fits sh room signature b = elim (Bool-cases (ltb room (length signature))) [
    | inl less ↦ simp less (
        pure-Ensures (FitsSign room) (cache_sign_result e sh signature)
          (λ done. too_small signature) b λ a. tt)
    | inr large ↦ elim (Bool-cases (is_empty signature)) [
      | inl none_there ↦ simp (large, none_there) tt
      | inr there ↦
          simp (large, there)
            (pure-Ensures (FitsSign room) (clear_sign_state_by_handle e sh)
              (λ done. delivered signature) b λ a. ground (arith, large))
    ]
  ]

  deliver-Fits :
      (sh room : ℕ) (has_buffer : Bool) (signing : Method service.World Bytes)
      (b : Backend service.World)
      → Ensures (FitsSign room) (deliver e sh has_buffer room signing b).0
  unfolding deliver size_query
  deliver-Fits sh room true signing b =
      catch_error-Ensures e (FitsSign room) rv_reply (λ rv. tt)
        (signing >>= copy_signature e sh room) b _ refl
        (bind-Ensures (FitsSign room) signing (copy_signature e sh room) b _ refl
          λ signature r. copy_signature-Fits sh room signature (signing b).1)
  deliver-Fits sh room false signing b =
      pure-Ensures (FitsSign room) (estimate_signature_size e sh) sized_reply b λ size. tt

  deliver_list-Fits :
      (has_list : Bool) (room : ℕ) (items : List ℕ)
      → FitsList room (deliver_list (if has_list then some room else none) items)
  unfolding deliver_list
  deliver_list-Fits true room items = elim (Bool-cases (ltb room (length items))) [
    | inl less ↦ simp less tt
    | inr large ↦ simp large (ground (arith, large))
  ]
  deliver_list-Fits false room items = tt

  c_get_attribute_value-Fits :
      (sh obj count : ℕ) (template : List AttributeBuffer) (b : Backend service.World)
      → Ensures
          (FitsValues (take count template))
          (c_get_attribute_value e sh obj count (some template) b).0
  unfolding c_get_attribute_value
  c_get_attribute_value-Fits sh obj count template b =
      let slots = take count template in
      let P = FitsValues slots in
      let none_there : (rv : ℕ) → P (attributes_rv rv) = λ rv. nothing-IsWithin slots in
      when_initialized-Ensures e P attributes_rv none_there _ b
        (elim (Bool-cases (ltb max_template_attrs count)) [
          | inl many ↦ simp many (nothing-IsWithin slots)
          | inr few ↦ simp few (
              catch_error-Ensures e P attributes_rv none_there _ b _ refl (
                pure-Ensures P (get_attribute_value e sh obj (asked slots))
                  (λ results. written (write_attributes slots results)) b
                  λ results. write_attributes-IsWithin slots results))
        ])

  -- Whatever the state of the module and the answers of the service, no exported function writes
  -- past the room that the caller gave: the signature of `C_Sign` and of `C_SignFinal`, the slots of
  -- `C_GetSlotList`, the mechanisms of `C_GetMechanismList`, each value of `C_GetAttributeValue` and
  -- the handles of `C_FindObjects`. An attribute without a buffer gets no value.
  pub no_overrun :
      (b : Backend service.World) (sh room : ℕ) (bytes : Bytes) (has_buffer : Bool)
      (slot obj address count : ℕ) (template : List AttributeBuffer)
      → Ensures (FitsSign room) (c_sign e sh (some bytes) has_buffer (some room) b).0
        × Ensures (FitsSign room) (c_sign_final e sh has_buffer (some room) b).0
        × Ensures (FitsList room) (c_get_slot_list e has_buffer (some room) b).0
        × Ensures (FitsList room) (c_get_mechanism_list e slot has_buffer (some room) b).0
        × Ensures (FitsFind room) (c_find_objects e sh (some address) room true b).0
        × Ensures
            (FitsValues (take count template))
            (c_get_attribute_value e sh obj count (some template) b).0
  unfolding c_sign c_sign_final c_get_slot_list c_get_mechanism_list c_find_objects
      c_get_attribute_value
  no_overrun b sh room bytes has_buffer slot obj address count template = (
    when_initialized-Ensures e (FitsSign room) rv_reply (λ rv. tt)
        (deliver e sh has_buffer room (sign_data e sh bytes)) b
        (deliver-Fits sh room has_buffer (sign_data e sh bytes) b),
    when_initialized-Ensures e (FitsSign room) rv_reply (λ rv. tt)
        (deliver e sh has_buffer room (sign_final e sh)) b
        (deliver-Fits sh room has_buffer (sign_final e sh) b),
    when_initialized-Ensures e (FitsList room) list_rv (λ rv. tt) _ b
        (catch_error-Ensures e (FitsList room) list_rv (λ rv. tt) _ b _ refl
          (pure-Ensures (FitsList room) (get_slot_list service) _ b
            λ items. deliver_list-Fits has_buffer room items)),
    when_initialized-Ensures e (FitsList room) list_rv (λ rv. tt) _ b
        (catch_error-Ensures e (FitsList room) list_rv (λ rv. tt) _ b _ refl
          (pure-Ensures (FitsList room) (get_mechanism_list e slot) _ b
            λ items. deliver_list-Fits has_buffer room items)),
    c_find_objects-Fits e sh address room b,
    c_get_attribute_value-Fits sh obj count template b,
  )
