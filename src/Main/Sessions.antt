-- ===== src/Main/Sessions.antt =====
-- main.go: the exported functions on sessions.
use infisical_pkcs.Base.{ℕ, Bool, [], Option, none, some, Bytes, if◌then◌else◌}
use infisical_pkcs.Constants.{ckr_ok, ckr_arguments_bad}
use infisical_pkcs.Backend.State.{Env, Method, ◌>>=◌, pure}
use infisical_pkcs.Backend.Login.{
  SessionInfo, open_session_on, close_session, close_all_sessions, login, logout, get_session_info,
}
use infisical_pkcs.Main.Reply.{catch_error, when_initialized, plain_call}
use infisical_pkcs.Main.Slots.{InfoReply, refused, info}

-- The return value, and the handle stored in `*phSession`.
pub record OpenReply : Type 0 where
  pub rv : ℕ
  pub handle : Option ℕ

abbrev pub open_rv : ℕ → OpenReply
open_rv rv = record { rv = rv; handle = none }

-- `CK_SESSION_INFO`
pub record CSessionInfo : Type 0 where
  pub slot_id : ℕ
  pub state : ℕ
  pub flags : ℕ
  pub device_error : ℕ

unfoldable pub fill_session_info : SessionInfo → CSessionInfo
fill_session_info i = record {
  slot_id = i.slot_id;
  state = i.state;
  flags = i.flags;
  device_error = 0;
}

-- The PIN: a null pointer is no PIN, as is one of no bytes.
abbrev pub pin_of : Option Bytes → Bytes
pin_of none = []
pin_of (some pin) = pin

module _ (e : Env) where
  open e use {service}

  -- `has_handle` is `phSession != nil`. The flags are not looked at.
  unfoldable pub c_open_session : ℕ → Bool → Method service.World OpenReply
  c_open_session slot has_handle = when_initialized e open_rv (
      if has_handle
      then catch_error e open_rv (
          open_session_on service slot >>= λ handle.
          pure (record { rv = ckr_ok; handle = some handle }))
      else pure (open_rv ckr_arguments_bad))

  unfoldable pub c_close_session : ℕ → Method service.World ℕ
  c_close_session sh = plain_call e (close_session service sh)

  unfoldable pub c_close_all_sessions : ℕ → Method service.World ℕ
  c_close_all_sessions slot = plain_call e (close_all_sessions service slot)

  unfoldable pub c_get_session_info : ℕ → Bool → Method service.World (InfoReply CSessionInfo)
  c_get_session_info sh has_info = when_initialized e refused (
      if has_info
      then catch_error e refused
          (get_session_info service sh >>= λ i. pure (info (fill_session_info i)))
      else pure (refused ckr_arguments_bad))

  -- The type of user is not looked at.
  unfoldable pub c_login : ℕ → Option Bytes → Method service.World ℕ
  c_login sh pin = plain_call e (login service sh (pin_of pin))

  unfoldable pub c_logout : ℕ → Method service.World ℕ
  c_logout sh = plain_call e (logout service sh)
