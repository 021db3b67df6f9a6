-- ===== src/Backend/Attributes/Results.antt =====
-- What `GetAttributeValue` gives for a template, and what it never gives.
use infisical_pkcs.Base.{
  ℕ, ◌≡◌, refl, Bool, true, false, List, [], ◌∷◌, none, some, arith, All, Bytes, length, ◌*◌, map,
}
use infisical_pkcs.Errors.{GoError}
use infisical_pkcs.Outcome.{Outcome, ok, err, panic}
use infisical_pkcs.Constants.{cka_value, cka_extractable, cka_sensitive, cka_private}
use infisical_pkcs.Slots.{Session, Attribute, get, parse_object_handle, obj_private_key}
use infisical_pkcs.Client.{SignerResponse}
use infisical_pkcs.Backend.State.{Env, Backend, Certificate, get_session}
use infisical_pkcs.Backend.Signers.{get_signer_by_slot}
use infisical_pkcs.Backend.Keys.{RsaKeyData, EcKeyData}
use infisical_pkcs.Backend.Frame.{Frame, get_signer_by_slot-Frame}
use infisical_pkcs.Backend.Frame.Calls.{
  get_public_key_data-Frame, get_ec_public_key_data-Frame, parsed_certificate-Frame,
  get_certificate_data-Frame,
}
use infisical_pkcs.Backend.Attributes.{
  rsa_attribute, ec_attribute, value_attribute, certificate_attribute, plain_attribute,
  attribute_value, attribute_values, get_attribute_value,
}

abbrev fails : {A : Type 0} → Outcome A → Bool
fails (err e) = true
fails _ = false

-- What an application may learn of a private key: no value, and that it stays in the token.
abbrev pub IsSealed : (Bool → Bytes) → Attribute → Type 0
IsSealed bool_value attr =
    (attr.kind ≡ cka_value → attr.value ≡ some [])
    × (attr.kind ≡ cka_extractable → attr.value ≡ some (bool_value false))
    × (attr.kind ≡ cka_sensitive → attr.value ≡ some (bool_value true))
    × (attr.kind ≡ cka_private → attr.value ≡ some (bool_value true))

module _ (e : Env) where
  open e use {service, bool_value}

  abbrev State : Type 0
  State = Backend service.World

  -- A call whose errors are replaced does not fail, and keeps the frame.
  rsa_attribute_lem :
      (field : RsaKeyData → Bytes) (default : Bytes) (obj_type : ℕ) (signer : SignerResponse)
      (b : State)
      → let (r, b') = rsa_attribute e field default obj_type signer b in
        (fails r ≡ false) × Frame b b'
  unfolding rsa_attribute
  rsa_attribute_lem field default obj_type signer b =
      ground (arith, get_public_key_data-Frame e signer.id b)

  ec_attribute_lem :
      (field : EcKeyData → Bytes) (obj_type : ℕ) (signer : SignerResponse) (b : State)
      → let (r, b') = ec_attribute e field obj_type signer b in (fails r ≡ false) × Frame b b'
  unfolding ec_attribute
  ec_attribute_lem field obj_type signer b =
      ground (arith, get_ec_public_key_data-Frame e signer.id b)

  value_attribute_lem :
      (obj_type : ℕ) (signer : SignerResponse) (b : State)
      → let (r, b') = value_attribute e obj_type signer b in (fails r ≡ false) × Frame b b'
  unfolding value_attribute
  value_attribute_lem obj_type signer b = ground (arith, get_certificate_data-Frame e signer.id b)

  certificate_attribute_lem :
      (field : Certificate → Bytes) (obj_type : ℕ) (signer : SignerResponse) (b : State)
      → let (r, b') = certificate_attribute e field obj_type signer b in
        (fails r ≡ false) × Frame b b'
  unfolding certificate_attribute
  certificate_attribute_lem field obj_type signer b =
      ground (arith, parsed_certificate-Frame e signer.id b)

  attribute_value_lem :
      (kind obj_type : ℕ) (signer : SignerResponse) (b : State)
      → let (r, b') = attribute_value e kind obj_type signer b in (fails r ≡ false) × Frame b b'
  unfolding attribute_value
  attribute_value_lem kind obj_type signer b =
      let modulus = rsa_attribute_lem (λ pk. pk.modulus) [] obj_type signer b in
      let exponent = rsa_attribute_lem (λ pk. pk.exponent) [] obj_type signer b in
      let size =
        rsa_attribute_lem (λ pk. e.uint_value (length pk.modulus * 8)) (e.uint_value 0) obj_type
          signer b in
      let params = ec_attribute_lem (λ ec. ec.ec_params) obj_type signer b in
      let point = ec_attribute_lem (λ ec. ec.ec_point) obj_type signer b in
      let value = value_attribute_lem obj_type signer b in
      let subject = certificate_attribute_lem (λ cert. cert.raw_subject) obj_type signer b in
      let issuer = certificate_attribute_lem (λ cert. cert.raw_issuer) obj_type signer b in
      let serial = certificate_attribute_lem (λ cert. cert.serial_number) obj_type signer b in
      ground (arith, modulus, exponent, size, params, point, value, subject, issuer, serial)

  attribute_values_lem :
      (obj_type : ℕ) (signer : SignerResponse) (template : List Attribute) (b : State)
      → let (r, b') = attribute_values e obj_type signer template b in
        (fails r ≡ false) × Frame b b'
  unfolding attribute_values
  attribute_values_lem obj_type signer [] b = ground arith
  attribute_values_lem obj_type signer (attr ∷ attrs) b =
      let first = attribute_value_lem attr.kind obj_type signer b in
      let rest =
        attribute_values_lem obj_type signer attrs
          (attribute_value e attr.kind obj_type signer b).1 in
      ground (arith, first.0, first.1, rest.0, rest.1)

  pub get_attribute_value-Frame :
      (sh obj : ℕ) (template : List Attribute) (b : State)
      → Frame b (get_attribute_value e sh obj template b).1
  unfolding get_attribute_value get_session
  get_attribute_value-Frame sh obj template b =
      let handle = parse_object_handle obj in
      grind (arith, get_signer_by_slot-Frame service handle.1 b, attribute_values_lem)

  attribute_values_kinds :
      (obj_type : ℕ) (signer : SignerResponse) (template results : List Attribute) (b : State)
      → (attribute_values e obj_type signer template b).0 ≡ ok results
      → map (λ (a : Attribute). a.kind) results ≡ map (λ (a : Attribute). a.kind) template
  unfolding attribute_values
  attribute_values_kinds obj_type signer [] [] b h = refl
  attribute_values_kinds obj_type signer [] (r ∷ rs) b h = ground (arith, h)
  attribute_values_kinds obj_type signer (attr ∷ attrs) [] b h = ground (arith, h)
  attribute_values_kinds obj_type signer (attr ∷ attrs) (r ∷ rs) b h =
      let b' = (attribute_value e attr.kind obj_type signer b).1 in
      ground (arith, h, attribute_values_kinds obj_type signer attrs rs b')

  -- With a session and an object whose slot has a signer, whatever the certificate, the key and the
  -- service, `GetAttributeValue` returns no error, and if it returns (a number too large for its
  -- curve panics) it gives exactly one result for each attribute of the template, in its order.
  pub one_result_each :
      (sh obj : ℕ) (template : List Attribute) (b : State) (s : Session) (signer : SignerResponse)
      → get sh b.sessions ≡ some s
      → (get_signer_by_slot service (parse_object_handle obj).1 b).0 ≡ ok signer
      → let r = (get_attribute_value e sh obj template b).0 in
        ((failure : GoError) → ¬ (r ≡ err failure))
        × ((results : List Attribute)
            → r ≡ ok results
            → map (λ (a : Attribute). a.kind) results ≡ map (λ (a : Attribute). a.kind) template)
  unfolding get_attribute_value get_session
  one_result_each sh obj template b s signer there found =
      let handle = parse_object_handle obj in
      let c = (get_signer_by_slot service handle.1 b).1 in
      (
        λ failure h.
            ground (arith, there, found, h, (attribute_values_lem handle.0 signer template c).0),
        λ results h.
            attribute_values_kinds handle.0 signer template results c
              (ground (arith, there, found, h)),
      )

  attribute_value-IsSealed :
      (kind : ℕ) (signer : SignerResponse) (v : Bytes) (b : State)
      → (attribute_value e kind obj_private_key signer b).0 ≡ ok v
      → IsSealed bool_value (record { kind = kind; value = some v })
  unfolding attribute_value plain_attribute value_attribute
  attribute_value-IsSealed kind signer v b h = ground (arith, h)

  IsSealed-step :
      (kind : ℕ) (signer : SignerResponse) (attrs : List Attribute) (r : Attribute)
      (rs : List Attribute) (b : State)
      → (attribute_values e obj_private_key signer
          (record { kind = kind; value = none } ∷ attrs)
          b).0
        ≡ ok (r ∷ rs)
      → (o : Outcome Bytes) → (attribute_value e kind obj_private_key signer b).0 ≡ o
      → ((attribute_values e obj_private_key signer attrs
              (attribute_value e kind obj_private_key signer b).1).0
            ≡ ok rs
          → All (IsSealed bool_value) rs)
      → IsSealed bool_value r × All (IsSealed bool_value) rs
  unfolding attribute_values
  IsSealed-step kind signer attrs r rs b h (ok v) found rest =
      let same : r ≡ record { kind = kind; value = some v } = ground (arith, h, found) in
      (rw same (attribute_value-IsSealed kind signer v b found), rest (ground (arith, h, found)))
  IsSealed-step kind signer attrs r rs b h (err failure) found rest =
      absurd (ground (arith, h, found))
  IsSealed-step kind signer attrs r rs b h panic found rest = absurd (ground (arith, h, found))

  attribute_values-IsSealed :
      (signer : SignerResponse) (template results : List Attribute) (b : State)
      → (attribute_values e obj_private_key signer template b).0 ≡ ok results
      → All (IsSealed bool_value) results
  unfolding attribute_values
  attribute_values-IsSealed signer template [] b h = tt
  attribute_values-IsSealed signer [] (r ∷ rs) b h = absurd (ground (arith, h))
  attribute_values-IsSealed signer (attr ∷ attrs) (r ∷ rs) b h =
      let b' = (attribute_value e attr.kind obj_private_key signer b).1 in
      IsSealed-step attr.kind signer attrs r rs b h
        (attribute_value e attr.kind obj_private_key signer b).0 refl
        (attribute_values-IsSealed signer attrs rs b')

  IsSealed-after :
      (sh obj : ℕ) (template results : List Attribute) (b : State)
      → (parse_object_handle obj).0 ≡ obj_private_key
      → (get_attribute_value e sh obj template b).0 ≡ ok results
      → (o : Outcome SignerResponse)
      → (get_signer_by_slot service (parse_object_handle obj).1 b).0 ≡ o
      → All (IsSealed bool_value) results
  unfolding get_attribute_value get_session
  IsSealed-after sh obj template results b key h (ok signer) found =
      let c = (get_signer_by_slot service (parse_object_handle obj).1 b).1 in
      attribute_values-IsSealed signer template results c (ground (arith, key, h, found))
  IsSealed-after sh obj template results b key h (err failure) found =
      absurd (ground (arith, h, found))
  IsSealed-after sh obj template results b key h panic found = absurd (ground (arith, h, found))

  -- For a private key the value is empty, never extractable, sensitive and private, in every result
  -- that names such an attribute.
  pub private_key-IsSealed :
      (sh obj : ℕ) (template results : List Attribute) (b : State)
      → (parse_object_handle obj).0 ≡ obj_private_key
      → (get_attribute_value e sh obj template b).0 ≡ ok results
      → All (IsSealed bool_value) results
  private_key-IsSealed sh obj template results b key h =
      let handle = parse_object_handle obj in
      let found = get_signer_by_slot service handle.1 b in
      IsSealed-after sh obj template results b key h found.0 refl
