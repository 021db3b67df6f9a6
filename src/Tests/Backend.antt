-- ===== src/Tests/Backend.antt =====
-- The theorems on the backend at concrete inputs.
use infisical_pkcs.Base.{All, ℕ, ◌≡◌, refl, true, [], ◌∷◌, none, some, arith, text}
use infisical_pkcs.Base.Map.{lookup}
use infisical_pkcs.Base.Int.{pos}
use infisical_pkcs.Errors.{
  sentinel, session_handle_invalid, not_logged_in, sign_already_active, wrap, slot_id_invalid,
}
use infisical_pkcs.Outcome.{ok, err}
use infisical_pkcs.Constants.{ckm_ecdsa}
use infisical_pkcs.Slots.{Session, get, new_session}
use infisical_pkcs.Backend.State.{Backend, get_session, write_session}
use infisical_pkcs.Backend.Login.{logout, login}
use infisical_pkcs.Backend.Signers.{get_signers, get_signer_by_slot, get_slot_list, indices}
use infisical_pkcs.Cache.{get_signer_cache, is_expired}
use infisical_pkcs.Backend.Signing.{sign_init}
use infisical_pkcs.Backend.Signing.Parts.{feed, sign_final-feed}
use infisical_pkcs.Backend.Find.{
  empty_query, find_objects_init, find_objects_init_on, search_objects, signer_matches,
  subject_matches_if, subject_matches, read_template,
}
use infisical_pkcs.Backend.Find.Results.{Belongs, find_objects_init_lem}
use infisical_pkcs.Backend.Find.Pages.{find_pages, find_pages_lem}
use infisical_pkcs.Backend.Guards.{unknown_session, out_of_order, logout_locks_slot}
use infisical_pkcs.Backend.Signers.Slots.{slot_list_complete}
use infisical_pkcs.Tests.Demo.{demo_env, demo_service, demo_backend, demo_session, demo_signer}

demo_there : get 1 demo_backend.sessions ≡ some demo_session
unfolding get lookup
demo_there = refl

demo_unknown : get 2 demo_backend.sessions ≡ none
unfolding get lookup
demo_unknown = refl

sign_final-feed_example : (feed demo_env 1 ((1 ∷ 2 ∷ []) ∷ (3 ∷ []) ∷ []) demo_backend).0 ≡ ok tt
sign_final-feed_example =
    (sign_final-feed demo_env 1 ((1 ∷ 2 ∷ []) ∷ (3 ∷ []) ∷ []) demo_session demo_backend demo_there
      refl (omega arith)).0

find_pages_lem_example :
    (find_pages demo_env 1 (1 ∷ 5 ∷ []) demo_backend).0 ≡ ok (0x30000000 ∷ 0x20000000 ∷ [])
find_pages_lem_example =
    find_pages_lem demo_env 1 (1 ∷ 5 ∷ []) demo_session demo_backend demo_there refl

unknown_session_example :
    login demo_service 2 (text "pin") demo_backend
    ≡ (err (sentinel session_handle_invalid), demo_backend)
unknown_session_example =
    (unknown_session demo_env 2 demo_backend demo_unknown (text "pin") [] [] (pos 3) [] 0).1

out_of_order_example :
    sign_init demo_env 1 (ckm_ecdsa ∷ []) 0 demo_backend
    ≡ (err (sentinel sign_already_active), demo_backend)
out_of_order_example =
    (out_of_order demo_env 1 demo_session demo_backend demo_there [] [] (pos 3) (ckm_ecdsa ∷ [])
        0).0
      refl refl

logout_locks_slot_example :
    let b' = (logout demo_service 1 demo_backend).1 in
    sign_init demo_env 1 (ckm_ecdsa ∷ []) 0 b' ≡ (err (sentinel not_logged_in), b')
logout_locks_slot_example =
    (logout_locks_slot demo_env 1 demo_session demo_backend demo_there 1 demo_session demo_there
        (ckm_ecdsa ∷ []) 0).1
      refl

-- A backend that has just been given its signers.
abbrev listed_backend : Backend ℕ
listed_backend = record demo_backend {
  signer_cache = record {
    ttl = pos 300;
    entry = some (record { value = demo_signer ∷ demo_signer ∷ []; expires_at = pos 9 });
  };
}

listed_signers : (get_signers demo_service listed_backend).0 ≡ ok (demo_signer ∷ demo_signer ∷ [])
unfolding get_signers get_signer_cache is_expired
listed_signers = refl

listed_slots : (get_slot_list demo_service listed_backend).0 ≡ ok (0 ∷ 1 ∷ [])
unfolding get_slot_list get_signers get_signer_cache indices is_expired
listed_slots = refl

slot_list_complete_example :
    (get_signer_by_slot demo_service 2 listed_backend).0
    ≡ err (wrap "slot" (sentinel slot_id_invalid))
slot_list_complete_example =
    (slot_list_complete demo_service listed_backend (demo_signer ∷ demo_signer ∷ []) listed_signers
        (0 ∷ 1 ∷ []) listed_slots).2
      2 (omega arith)

-- A backend whose one session, on slot 5, does nothing yet.
abbrev idle_backend : Backend ℕ
idle_backend = record demo_backend {
  sessions = record { sessions = (1, new_session 5) ∷ []; next_id = 2 };
}

idle_there : get 1 idle_backend.sessions ≡ some (new_session 5)
unfolding get lookup
idle_there = refl

idle_begins : (find_objects_init demo_env 1 [] idle_backend).0 ≡ ok tt
unfolding find_objects_init find_objects_init_on get_session get lookup search_objects
    signer_matches subject_matches_if subject_matches read_template write_session new_session
idle_begins = refl

idle_slot : (new_session 5).slot_id ≡ 5
unfolding new_session
idle_slot = refl

find_objects_init_lem_example :
    let b' = (find_objects_init demo_env 1 [] idle_backend).1 in
    (t : Session) × (get 1 b'.sessions ≡ some t)
    × (t.find_active ≡ true)
    × (t.find_pos ≡ 0)
    × All (Belongs (read_template [] empty_query).class (new_session 5).slot_id) t.find_results
find_objects_init_lem_example =
    find_objects_init_lem demo_env 1 (new_session 5) idle_backend [] idle_there
      (omega (arith, idle_slot)) idle_begins
