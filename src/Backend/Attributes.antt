-- ===== src/Backend/Attributes.antt =====
-- backend.go: `GetAttributeValue`, one result for each attribute of the template.
pub mod Results
use infisical_pkcs.Base.{
  ℕ, ◌*◌, Bool, true, false, ◌&&◌, ◌||◌, List, [], ◌∷◌, some, Bytes, length, ◌==◌, if◌then◌else◌,
}
use infisical_pkcs.Outcome.{Outcome, ok, err, panic}
use infisical_pkcs.Constants.{
  cko_private_key, cko_public_key, cko_certificate, ckk_rsa, ckk_ec, ckc_x_509, cka_class,
  cka_token, cka_private, cka_label, cka_value, cka_certificate_type, cka_issuer, cka_serial_number,
  cka_trusted, cka_key_type, cka_subject, cka_id, cka_sensitive, cka_encrypt, cka_decrypt, cka_wrap,
  cka_unwrap, cka_sign, cka_sign_recover, cka_verify, cka_verify_recover, cka_derive, cka_modulus,
  cka_modulus_bits, cka_public_exponent, cka_extractable, cka_local, cka_never_extractable,
  cka_always_sensitive, cka_ec_params, cka_ec_point, cka_always_authenticate, cka_wrap_with_trusted,
}
use infisical_pkcs.Slots.{
  Attribute, obj_private_key, obj_certificate, obj_public_key, parse_object_handle,
}
use infisical_pkcs.Client.{SignerResponse}
use infisical_pkcs.Backend.State.{Env, Method, Certificate, ◌>>=◌, ◌>>◌, pure, get_session}
use infisical_pkcs.Backend.Signers.{get_signer_by_slot}
use infisical_pkcs.Backend.Keys.{
  RsaKeyData, EcKeyData, get_key_type, get_certificate_data, parsed_certificate,
  get_public_key_data, get_ec_public_key_data,
}
use infisical_pkcs.Backend.Find.{truncate}

abbrev pub is_key_type : ℕ → Bool
is_key_type obj_type = obj_type == obj_private_key || obj_type == obj_public_key

-- The attributes that are `false` for every object.
abbrev pub is_always_false : ℕ → Bool
is_always_false kind =
    kind == cka_encrypt
    || kind == cka_decrypt
    || kind == cka_wrap
    || kind == cka_unwrap
    || kind == cka_verify_recover
    || kind == cka_sign_recover
    || kind == cka_derive
    || kind == cka_trusted
    || kind == cka_wrap_with_trusted
    || kind == cka_local

module _ (e : Env) where
  open e use {service, library, bool_value, uint_value}

  -- A value that is replaced if the call for it fails.
  abbrev value_or : Bytes → Method service.World Bytes → Method service.World Bytes
  value_or default m b =
      let (r, b') = m b in
      elim r [ ok v ↦ (ok v, b') | err _ ↦ (ok default, b') | panic ↦ (panic, b') ]

  unfoldable pub class_value : ℕ → Bytes
  class_value obj_type =
      if obj_type == obj_private_key
      then uint_value cko_private_key
      else if obj_type == obj_public_key
      then uint_value cko_public_key
      else if obj_type == obj_certificate
      then uint_value cko_certificate
      else []

  -- A field of the signer's RSA key, with what stands there for other objects and after an error.
  unfoldable pub rsa_attribute :
      (RsaKeyData → Bytes) → Bytes → ℕ → SignerResponse → Method service.World Bytes
  rsa_attribute field default obj_type signer =
      if is_key_type obj_type && get_key_type library signer == ckk_rsa
      then value_or default (get_public_key_data e signer.id >>= λ pk. pure (field pk))
      else pure default

  unfoldable pub ec_attribute :
      (EcKeyData → Bytes) → ℕ → SignerResponse → Method service.World Bytes
  ec_attribute field obj_type signer =
      if is_key_type obj_type && get_key_type library signer == ckk_ec
      then value_or [] (get_ec_public_key_data e signer.id >>= λ ec. pure (field ec))
      else pure []

  unfoldable pub value_attribute : ℕ → SignerResponse → Method service.World Bytes
  value_attribute obj_type signer =
      if obj_type == obj_certificate
      then value_or [] (get_certificate_data e signer.id)
      else pure []

  unfoldable pub certificate_attribute :
      (Certificate → Bytes) → ℕ → SignerResponse → Method service.World Bytes
  certificate_attribute field obj_type signer =
      if obj_type == obj_certificate
      then value_or [] (parsed_certificate e signer.id >>= λ cert. pure (field cert))
      else pure []

  -- The attributes that need neither key nor certificate.
  unfoldable pub plain_attribute : ℕ → ℕ → SignerResponse → Bytes
  plain_attribute kind obj_type signer =
      if kind == cka_class
      then class_value obj_type
      else if kind == cka_token
      then bool_value true
      else if kind == cka_private
      then bool_value (obj_type == obj_private_key)
      else if kind == cka_sensitive
      then bool_value (obj_type == obj_private_key)
      else if kind == cka_extractable
      then bool_value false
      else if kind == cka_always_authenticate
      then bool_value false
      else if kind == cka_label
      then signer.name
      else if kind == cka_id
      then truncate 20 signer.id
      else if kind == cka_sign
      then bool_value (obj_type == obj_private_key)
      else if kind == cka_key_type
      then uint_value (get_key_type library signer)
      else if kind == cka_certificate_type
      then (if obj_type == obj_certificate then uint_value ckc_x_509 else [])
      else if kind == cka_verify
      then bool_value (obj_type == obj_public_key)
      else if is_always_false kind
      then bool_value false
      else if kind == cka_never_extractable
      then bool_value (obj_type == obj_private_key)
      else if kind == cka_always_sensitive
      then bool_value (obj_type == obj_private_key)
      else []

  -- The switch on the type of an attribute.
  unfoldable pub attribute_value : ℕ → ℕ → SignerResponse → Method service.World Bytes
  attribute_value kind obj_type signer =
      if kind == cka_modulus
      then rsa_attribute (λ pk. pk.modulus) [] obj_type signer
      else if kind == cka_public_exponent
      then rsa_attribute (λ pk. pk.exponent) [] obj_type signer
      else if kind == cka_modulus_bits
      then rsa_attribute (λ pk. uint_value (length pk.modulus * 8)) (uint_value 0) obj_type signer
      else if kind == cka_value
      then value_attribute obj_type signer
      else if kind == cka_ec_params
      then ec_attribute (λ ec. ec.ec_params) obj_type signer
      else if kind == cka_ec_point
      then ec_attribute (λ ec. ec.ec_point) obj_type signer
      else if kind == cka_subject
      then certificate_attribute (λ cert. cert.raw_subject) obj_type signer
      else if kind == cka_issuer
      then certificate_attribute (λ cert. cert.raw_issuer) obj_type signer
      else if kind == cka_serial_number
      then certificate_attribute (λ cert. cert.serial_number) obj_type signer
      else pure (plain_attribute kind obj_type signer)

  -- The loop over the template.
  unfoldable pub attribute_values :
      ℕ → SignerResponse → List Attribute → Method service.World (List Attribute)
  attribute_values obj_type signer [] = pure []
  attribute_values obj_type signer (attr ∷ attrs) = do
    v ← attribute_value attr.kind obj_type signer
    rest ← attribute_values obj_type signer attrs
    pure (record { kind = attr.kind; value = some v } ∷ rest)

  unfoldable pub get_attribute_value :
      ℕ → ℕ → List Attribute → Method service.World (List Attribute)
  get_attribute_value sh obj template = do
    sess ← get_session sh
    let (obj_type, slot) = parse_object_handle obj
    signer ← get_signer_by_slot service slot
    attribute_values obj_type signer template
