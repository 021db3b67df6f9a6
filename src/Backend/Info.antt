-- ===== src/Backend/Info.antt =====
-- backend.go: `GetSlotInfo` and `GetTokenInfo`, with texts padded to fields of a fixed length.
use infisical_pkcs.Base.{
  ℕ, ◌-◌, not, ◌&&◌, ◌++◌, Bytes, text, length, take, replicate, leb, if◌then◌else◌,
}
use Prim.Native.Nat.{bit_or}
use infisical_pkcs.Constants.{
  ckf_token_present, ckf_hw_slot, ckf_login_required, ckf_token_initialized,
}
use infisical_pkcs.Backend.State.{Backend, Method, ◌>>=◌, pure, gets}
use infisical_pkcs.Client.{Service}
use infisical_pkcs.Backend.Auth.{has_config_credentials, is_token_auth}
use infisical_pkcs.Backend.Signers.{get_signer_by_slot}
use infisical_pkcs.Backend.Find.{truncate}

unfoldable pub pad_string : Bytes → ℕ → Bytes
pad_string s n = if leb n (length s) then take n s else s ++ replicate (n - length s) b' '

-- `pkcs11.Version`, with its major and minor part.
pub record Version : Type 0 where
  pub major : ℕ
  pub minor : ℕ

abbrev pub version_1_0 : Version
version_1_0 = record { major = 1; minor = 0 }

pub record SlotInfo : Type 0 where
  pub slot_description : Bytes
  pub manufacturer_id : Bytes
  pub flags : ℕ
  pub hardware_version : Version
  pub firmware_version : Version

pub record TokenInfo : Type 0 where
  pub label : Bytes
  pub manufacturer_id : Bytes
  pub model : Bytes
  pub serial_number : Bytes
  pub flags : ℕ
  pub max_session_count : ℕ
  pub session_count : ℕ
  pub max_pin_len : ℕ
  pub min_pin_len : ℕ
  pub hardware_version : Version
  pub firmware_version : Version

module _ (v : Service) where
  open v use {World}

  unfoldable pub get_slot_info : ℕ → Method World SlotInfo
  get_slot_info slot = do
    signer ← get_signer_by_slot v slot
    pure (record {
      slot_description = pad_string signer.name 64;
      manufacturer_id = pad_string (text "Infisical") 32;
      flags = bit_or ckf_token_present ckf_hw_slot;
      hardware_version = version_1_0;
      firmware_version = version_1_0;
    })

  -- A login is required unless the module can log in by itself.
  unfoldable pub token_flags : Backend World → ℕ
  token_flags b =
      if not (has_config_credentials b.config) && not (is_token_auth b.config)
      then bit_or ckf_token_initialized ckf_login_required
      else ckf_token_initialized

  unfoldable pub get_token_info : ℕ → Method World TokenInfo
  get_token_info slot = do
    signer ← get_signer_by_slot v slot
    flags_now ← gets token_flags
    pure (record {
      label = pad_string signer.name 32;
      manufacturer_id = pad_string (text "Infisical") 32;
      model = pad_string (text "Code Signing") 16;
      serial_number = pad_string (truncate 16 signer.id) 16;
      flags = flags_now;
      max_session_count = 64;
      session_count = 0;
      max_pin_len = 4096;
      min_pin_len = 1;
      hardware_version = version_1_0;
      firmware_version = version_1_0;
    })
