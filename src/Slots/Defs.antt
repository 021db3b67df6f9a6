-- ===== src/Slots/Defs.antt =====
-- slots.go: the handles, the session record, and the operations of the session manager.
use Prim.Native.Nat.{bit_or, bit_and}
use infisical_pkcs.Base.{
  ℕ, ◌+◌, ◌*◌, ◌%◌, ◌^◌, Bool, true, false, List, [], ◌++◌, Option, none, some, Bytes, length, ◌==◌,
  ltb, not, if◌then◌else◌,
}
use infisical_pkcs.Base.Map.{Map, lookup, insert, erase, retain, update_all, nat_key}
use infisical_pkcs.Errors.{GoError, plain}

-- 16 MiB
abbrev pub max_sign_buffer : ℕ
max_sign_buffer = 16 * 1024 * 1024

abbrev pub obj_private_key : ℕ
obj_private_key = 0x10000000

abbrev pub obj_certificate : ℕ
obj_certificate = 0x20000000

abbrev pub obj_public_key : ℕ
obj_public_key = 0x30000000

unfoldable pub make_private_key_handle : ℕ → ℕ
make_private_key_handle slot = bit_or obj_private_key slot

unfoldable pub make_certificate_handle : ℕ → ℕ
make_certificate_handle slot = bit_or obj_certificate slot

unfoldable pub make_public_key_handle : ℕ → ℕ
make_public_key_handle slot = bit_or obj_public_key slot

unfoldable pub parse_object_handle : ℕ → ℕ × ℕ
parse_object_handle handle = (bit_and handle 0xf0000000, bit_and handle 0x0fffffff)

-- `pkcs11.Attribute`, with `none` for a nil value.
pub record Attribute : Type 0 where
  pub kind : ℕ
  pub value : Option Bytes

pub record Session : Type 0 where
  pub slot_id : ℕ
  pub logged_in : Bool
  pub sign_active : Bool
  pub sign_mech : ℕ
  pub sign_key_index : ℕ
  pub sign_buffer : Bytes
  pub cached_signature : Option Bytes
  pub find_active : Bool
  pub find_template : List Attribute
  pub find_results : List ℕ
  pub find_pos : ℕ

-- `&session{slotID: slotID}`
unfoldable pub new_session : ℕ → Session
new_session slot = record {
  slot_id = slot;
  logged_in = false;
  sign_active = false;
  sign_mech = 0;
  sign_key_index = 0;
  sign_buffer = [];
  cached_signature = none;
  find_active = false;
  find_template = [];
  find_results = [];
  find_pos = 0;
}

pub record SessionManager : Type 0 where
  pub sessions : Map ℕ Session
  pub next_id : ℕ

unfoldable pub new_session_manager : SessionManager
new_session_manager = record { sessions = []; next_id = 1 }

-- The handle type is a 64-bit `uint`.
unfoldable pub open_session : ℕ → SessionManager → ℕ × SessionManager
unfolding insert new_session
open_session slot m = (
  m.next_id,
  record {
    sessions = insert m.next_id (new_session slot) m.sessions;
    next_id = (m.next_id + 1) % 2 ^ 64;
  },
)

unfoldable pub get : ℕ → SessionManager → Option Session
unfolding lookup
get handle m = lookup handle m.sessions

-- What a write through the pointer that `get` returned does.
unfoldable pub put : ℕ → Session → SessionManager → SessionManager
unfolding insert
put handle s m = record m { sessions = insert handle s m.sessions }

unfoldable pub close : ℕ → SessionManager → Bool × SessionManager
unfolding lookup retain
close handle m = elim (lookup handle m.sessions) [
  | none ↦ (false, m)
  | some s ↦ (true, record m { sessions = erase handle m.sessions })
]

unfoldable pub close_all_for_slot : ℕ → SessionManager → SessionManager
unfolding retain
close_all_for_slot slot m = record m {
  sessions = retain (λ _ s. not (s.slot_id == slot)) m.sessions;
}

unfoldable pub set_logged_in : ℕ → Bool → SessionManager → SessionManager
unfolding lookup insert
set_logged_in handle logged_in m = elim (lookup handle m.sessions) [
  | none ↦ m
  | some s ↦ record m { sessions = insert handle (record s { logged_in = logged_in }) m.sessions }
]

abbrev pub set_for_slot : ℕ → Bool → Session → Session
set_for_slot slot logged_in s = if s.slot_id == slot then record s { logged_in = logged_in } else s

unfoldable pub set_all_logged_in_for_slot : ℕ → Bool → SessionManager → SessionManager
unfolding update_all
set_all_logged_in_for_slot slot logged_in m = record m {
  sessions = update_all (set_for_slot slot logged_in) m.sessions;
}

-- The buffer after `SignUpdate`, or the error that it would grow too large.
unfoldable pub append_sign_buffer : Bytes → Session → Option GoError × Session
append_sign_buffer bytes s =
    if ltb max_sign_buffer (length s.sign_buffer + length bytes)
    then (some (plain "sign buffer exceeds maximum size"), s)
    else (none, record s { sign_buffer = s.sign_buffer ++ bytes })
