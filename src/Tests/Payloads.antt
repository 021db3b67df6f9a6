-- ===== src/Tests/Payloads.antt =====
-- What is sent to be signed, for hashes that give zeros.
use infisical_pkcs.Base.{◌≡◌, refl, true, text, arith, replicate}
use infisical_pkcs.Outcome.{ok}
use infisical_pkcs.Constants.{ckm_sha384_rsa_pkcs}
use infisical_pkcs.Mechanism.{alg_rsa_pkcs1_sha384, is_pss_mechanism, mechanism_to_algorithm}
use infisical_pkcs.Backend.State.{Crypto}
use infisical_pkcs.Backend.Signing.{Payload, make_payload, hash_data_for_mechanism}
use infisical_pkcs.Backend.Signing.Payloads.{HasLengths, IsDescribed, make_payload_lem}
use infisical_pkcs.Tests.Demo.{demo_crypto, demo_env}

abbrev zero_crypto : Crypto
zero_crypto = record demo_crypto {
  sha256 = λ s. replicate 32 0;
  sha384 = λ s. replicate 48 0;
  sha512 = λ s. replicate 64 0;
}

zero-HasLengths : HasLengths zero_crypto
zero-HasLengths = record {
  sha256_length = λ s. refl;
  sha384_length = λ s. refl;
  sha512_length = λ s. refl;
}

abbrev zero_payload : Payload
zero_payload = record {
  algorithm = alg_rsa_pkcs1_sha384;
  sign_data = replicate 48 0;
  is_digest = true;
}

makes_zero :
    make_payload demo_env.asn1 zero_crypto ckm_sha384_rsa_pkcs (text "message") ≡ ok zero_payload
unfolding make_payload is_pss_mechanism mechanism_to_algorithm hash_data_for_mechanism
makes_zero = refl

make_payload_lem_example : IsDescribed (text "message") zero_payload
make_payload_lem_example =
    (make_payload_lem demo_env.asn1 zero_crypto zero-HasLengths ckm_sha384_rsa_pkcs (text "message")
      zero_payload (λ raw. absurd (omega (arith, raw))) makes_zero).1
