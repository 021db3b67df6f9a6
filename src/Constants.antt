-- ===== src/Constants.antt =====
-- The constants of PKCS#11 that the module uses: `pkcs11_types.h` and the Go package
-- `github.com/miekg/pkcs11` give them the values of the standard.
use infisical_pkcs.Base.{ℕ}

-- Return values (`pkcs11_types.h`).
abbrev pub ckr_ok : ℕ
ckr_ok = 0x0

abbrev pub ckr_slot_id_invalid : ℕ
ckr_slot_id_invalid = 0x3

abbrev pub ckr_general_error : ℕ
ckr_general_error = 0x5

abbrev pub ckr_arguments_bad : ℕ
ckr_arguments_bad = 0x7

abbrev pub ckr_data_invalid : ℕ
ckr_data_invalid = 0x20

abbrev pub ckr_device_error : ℕ
ckr_device_error = 0x30

abbrev pub ckr_function_not_supported : ℕ
ckr_function_not_supported = 0x54

abbrev pub ckr_key_handle_invalid : ℕ
ckr_key_handle_invalid = 0x60

abbrev pub ckr_mechanism_invalid : ℕ
ckr_mechanism_invalid = 0x70

abbrev pub ckr_operation_active : ℕ
ckr_operation_active = 0x90

abbrev pub ckr_operation_not_initialized : ℕ
ckr_operation_not_initialized = 0x91

abbrev pub ckr_session_handle_invalid : ℕ
ckr_session_handle_invalid = 0xb3

abbrev pub ckr_user_not_logged_in : ℕ
ckr_user_not_logged_in = 0x101

abbrev pub ckr_buffer_too_small : ℕ
ckr_buffer_too_small = 0x150

abbrev pub ckr_cryptoki_not_initialized : ℕ
ckr_cryptoki_not_initialized = 0x190

abbrev pub ckr_cryptoki_already_initialized : ℕ
ckr_cryptoki_already_initialized = 0x191

-- Object classes and key types.
abbrev pub cko_certificate : ℕ
cko_certificate = 0x1

abbrev pub cko_public_key : ℕ
cko_public_key = 0x2

abbrev pub cko_private_key : ℕ
cko_private_key = 0x3

abbrev pub ckk_rsa : ℕ
ckk_rsa = 0x0

abbrev pub ckk_ec : ℕ
ckk_ec = 0x3

abbrev pub ckc_x_509 : ℕ
ckc_x_509 = 0x0

-- Attributes.
abbrev pub cka_class : ℕ
cka_class = 0x0

abbrev pub cka_token : ℕ
cka_token = 0x1

abbrev pub cka_private : ℕ
cka_private = 0x2

abbrev pub cka_label : ℕ
cka_label = 0x3

abbrev pub cka_value : ℕ
cka_value = 0x11

abbrev pub cka_certificate_type : ℕ
cka_certificate_type = 0x80

abbrev pub cka_issuer : ℕ
cka_issuer = 0x81

abbrev pub cka_serial_number : ℕ
cka_serial_number = 0x82

abbrev pub cka_trusted : ℕ
cka_trusted = 0x86

abbrev pub cka_key_type : ℕ
cka_key_type = 0x100

abbrev pub cka_subject : ℕ
cka_subject = 0x101

abbrev pub cka_id : ℕ
cka_id = 0x102

abbrev pub cka_sensitive : ℕ
cka_sensitive = 0x103

abbrev pub cka_encrypt : ℕ
cka_encrypt = 0x104

abbrev pub cka_decrypt : ℕ
cka_decrypt = 0x105

abbrev pub cka_wrap : ℕ
cka_wrap = 0x106

abbrev pub cka_unwrap : ℕ
cka_unwrap = 0x107

abbrev pub cka_sign : ℕ
cka_sign = 0x108

abbrev pub cka_sign_recover : ℕ
cka_sign_recover = 0x109

abbrev pub cka_verify : ℕ
cka_verify = 0x10a

abbrev pub cka_verify_recover : ℕ
cka_verify_recover = 0x10b

abbrev pub cka_derive : ℕ
cka_derive = 0x10c

abbrev pub cka_modulus : ℕ
cka_modulus = 0x120

abbrev pub cka_modulus_bits : ℕ
cka_modulus_bits = 0x121

abbrev pub cka_public_exponent : ℕ
cka_public_exponent = 0x122

abbrev pub cka_extractable : ℕ
cka_extractable = 0x162

abbrev pub cka_local : ℕ
cka_local = 0x163

abbrev pub cka_never_extractable : ℕ
cka_never_extractable = 0x164

abbrev pub cka_always_sensitive : ℕ
cka_always_sensitive = 0x165

abbrev pub cka_ec_params : ℕ
cka_ec_params = 0x180

abbrev pub cka_ec_point : ℕ
cka_ec_point = 0x181

abbrev pub cka_always_authenticate : ℕ
cka_always_authenticate = 0x202

abbrev pub cka_wrap_with_trusted : ℕ
cka_wrap_with_trusted = 0x210

-- Mechanisms.
abbrev pub ckm_rsa_pkcs : ℕ
ckm_rsa_pkcs = 0x1

abbrev pub ckm_sha256_rsa_pkcs : ℕ
ckm_sha256_rsa_pkcs = 0x40

abbrev pub ckm_sha384_rsa_pkcs : ℕ
ckm_sha384_rsa_pkcs = 0x41

abbrev pub ckm_sha512_rsa_pkcs : ℕ
ckm_sha512_rsa_pkcs = 0x42

abbrev pub ckm_sha256_rsa_pkcs_pss : ℕ
ckm_sha256_rsa_pkcs_pss = 0x43

abbrev pub ckm_sha384_rsa_pkcs_pss : ℕ
ckm_sha384_rsa_pkcs_pss = 0x44

abbrev pub ckm_sha512_rsa_pkcs_pss : ℕ
ckm_sha512_rsa_pkcs_pss = 0x45

abbrev pub ckm_ecdsa : ℕ
ckm_ecdsa = 0x1041

abbrev pub ckm_ecdsa_sha256 : ℕ
ckm_ecdsa_sha256 = 0x1044

abbrev pub ckm_ecdsa_sha384 : ℕ
ckm_ecdsa_sha384 = 0x1045

abbrev pub ckm_ecdsa_sha512 : ℕ
ckm_ecdsa_sha512 = 0x1046

-- Flags and session states.
abbrev pub ckf_token_present : ℕ
ckf_token_present = 0x1

abbrev pub ckf_hw_slot : ℕ
ckf_hw_slot = 0x4

abbrev pub ckf_login_required : ℕ
ckf_login_required = 0x4

abbrev pub ckf_token_initialized : ℕ
ckf_token_initialized = 0x400

abbrev pub ckf_serial_session : ℕ
ckf_serial_session = 0x4

abbrev pub ckf_sign : ℕ
ckf_sign = 0x800

abbrev pub cks_ro_public_session : ℕ
cks_ro_public_session = 0x0

abbrev pub cks_ro_user_functions : ℕ
cks_ro_user_functions = 0x1
