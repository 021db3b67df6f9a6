-- ===== src/Main/Slots.antt =====
-- main.go: `C_GetInfo`, and the exported functions on slots, tokens and mechanisms.
use infisical_pkcs.Base.{
  ℕ, ◌-◌, ◌^◌, Bool, true, false, ◌||◌, Option, none, some, Bytes, text, ◌==◌, if◌then◌else◌,
}
use infisical_pkcs.Constants.{
  ckr_arguments_bad, ckm_ecdsa, ckm_ecdsa_sha256, ckm_ecdsa_sha384, ckm_ecdsa_sha512, ckf_sign,
}
use infisical_pkcs.Backend.State.{Env, Method, ◌>>=◌, pure}
use infisical_pkcs.Backend.Signers.{get_slot_list}
use infisical_pkcs.Backend.Keys.{get_mechanism_list}
use infisical_pkcs.Backend.Info.{Version, SlotInfo, TokenInfo, get_slot_info, get_token_info}
use infisical_pkcs.Main.Reply.{catch_error, when_initialized}
use infisical_pkcs.Main.Buffers.{ListReply, list_rv, deliver_list, copy_padded_string}

-- A return value, and the structure that was filled in.
pub data InfoReply (A : Type 0) : Type 0 where
  refused : ℕ → InfoReply A
  info : A → InfoReply A

-- `CK_INFO`
pub record ModuleInfo : Type 0 where
  pub cryptoki_version : Version
  pub manufacturer_id : Bytes
  pub flags : ℕ
  pub library_description : Bytes
  pub library_version : Version

-- `CK_SLOT_INFO`
pub record CSlotInfo : Type 0 where
  pub slot_description : Bytes
  pub manufacturer_id : Bytes
  pub flags : ℕ
  pub hardware_version : Version
  pub firmware_version : Version

-- `CK_TOKEN_INFO`
pub record CTokenInfo : Type 0 where
  pub label : Bytes
  pub manufacturer_id : Bytes
  pub model : Bytes
  pub serial_number : Bytes
  pub flags : ℕ
  pub max_session_count : ℕ
  pub session_count : ℕ
  pub max_rw_session_count : ℕ
  pub rw_session_count : ℕ
  pub max_pin_len : ℕ
  pub min_pin_len : ℕ
  pub total_public_memory : ℕ
  pub free_public_memory : ℕ
  pub total_private_memory : ℕ
  pub free_private_memory : ℕ
  pub hardware_version : Version
  pub firmware_version : Version

-- `CK_MECHANISM_INFO`
pub record MechanismInfo : Type 0 where
  pub min_key_size : ℕ
  pub max_key_size : ℕ
  pub flags : ℕ

-- `^C.CK_ULONG(0)`
abbrev pub unavailable_information : ℕ
unavailable_information = 2 ^ 64 - 1

unfoldable pub fill_slot_info : SlotInfo → CSlotInfo
fill_slot_info i = record {
  slot_description = copy_padded_string i.slot_description 64;
  manufacturer_id = copy_padded_string i.manufacturer_id 32;
  flags = i.flags;
  hardware_version = i.hardware_version;
  firmware_version = i.firmware_version;
}

unfoldable pub fill_token_info : TokenInfo → CTokenInfo
fill_token_info i = record {
  label = copy_padded_string i.label 32;
  manufacturer_id = copy_padded_string i.manufacturer_id 32;
  model = copy_padded_string i.model 16;
  serial_number = copy_padded_string i.serial_number 16;
  flags = i.flags;
  max_session_count = i.max_session_count;
  session_count = i.session_count;
  max_rw_session_count = i.max_session_count;
  rw_session_count = 0;
  max_pin_len = i.max_pin_len;
  min_pin_len = i.min_pin_len;
  total_public_memory = unavailable_information;
  free_public_memory = unavailable_information;
  total_private_memory = unavailable_information;
  free_private_memory = unavailable_information;
  hardware_version = i.hardware_version;
  firmware_version = i.firmware_version;
}

-- `has_info` is `pInfo != nil`, here and below.
unfoldable pub c_get_info : (has_info : Bool) → InfoReply ModuleInfo
c_get_info false = refused ckr_arguments_bad
c_get_info true = info (record {
  cryptoki_version = record { major = 2; minor = 40 };
  manufacturer_id = copy_padded_string (text "Infisical") 32;
  flags = 0;
  library_description = copy_padded_string (text "Infisical PKCS#11 Module") 32;
  library_version = record { major = 1; minor = 0 };
})

unfoldable pub mechanism_info : ℕ → MechanismInfo
mechanism_info mech =
    if mech == ckm_ecdsa
      || mech == ckm_ecdsa_sha256
      || mech == ckm_ecdsa_sha384
      || mech == ckm_ecdsa_sha512
    then record { min_key_size = 256; max_key_size = 521; flags = ckf_sign }
    else record { min_key_size = 2048; max_key_size = 4096; flags = ckf_sign }

module _ (e : Env) where
  open e use {service}

  -- `room` is what `pulCount` points to, and `has_list` is `pSlotList != nil`.
  unfoldable pub c_get_slot_list : Bool → Option ℕ → Method service.World ListReply
  c_get_slot_list has_list none = when_initialized e list_rv (pure (list_rv ckr_arguments_bad))
  c_get_slot_list has_list (some room) = when_initialized e list_rv (
      catch_error e list_rv (
        get_slot_list service >>= λ slots.
        pure (deliver_list (if has_list then some room else none) slots)))

  unfoldable pub c_get_slot_info : ℕ → Bool → Method service.World (InfoReply CSlotInfo)
  c_get_slot_info slot has_info = when_initialized e refused (
      if has_info
      then catch_error e refused
          (get_slot_info service slot >>= λ i. pure (info (fill_slot_info i)))
      else pure (refused ckr_arguments_bad))

  unfoldable pub c_get_token_info : ℕ → Bool → Method service.World (InfoReply CTokenInfo)
  c_get_token_info slot has_info = when_initialized e refused (
      if has_info
      then catch_error e refused
          (get_token_info service slot >>= λ i. pure (info (fill_token_info i)))
      else pure (refused ckr_arguments_bad))

  unfoldable pub c_get_mechanism_list : ℕ → Bool → Option ℕ → Method service.World ListReply
  c_get_mechanism_list slot has_list none =
      when_initialized e list_rv (pure (list_rv ckr_arguments_bad))
  c_get_mechanism_list slot has_list (some room) = when_initialized e list_rv (
      catch_error e list_rv (
        get_mechanism_list e slot >>= λ mechs.
        pure (deliver_list (if has_list then some room else none) mechs)))

  -- The slot is not looked at.
  unfoldable pub c_get_mechanism_info :
      ℕ → ℕ → Bool → Method service.World (InfoReply MechanismInfo)
  c_get_mechanism_info slot mech has_info =
      when_initialized e refused
        (pure (if has_info then info (mechanism_info mech) else refused ckr_arguments_bad))
