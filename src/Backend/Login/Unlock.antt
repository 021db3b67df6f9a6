-- ===== src/Backend/Login/Unlock.antt =====
-- Which sessions a login opens.
use infisical_pkcs.Base.{
  ℕ, ◌≡◌, refl, Bool, true, some, arith, Bytes, Option-cases, inl, inr, ◌==◌, if◌then◌else◌,
}
use infisical_pkcs.Outcome.{Outcome, ok}
use infisical_pkcs.Client.{Service}
use infisical_pkcs.Slots.{
  Session, SessionManager, get, set_logged_in, set_all_logged_in_for_slot, set_for_slot,
}
use infisical_pkcs.Slots.Lookup.{get-set_all}
use infisical_pkcs.Base.Map.{nat_key, lookup-insert}
use infisical_pkcs.Backend.State.{Backend, get_session}
use infisical_pkcs.Backend.Frame.{authenticate-Frame}
use infisical_pkcs.Backend.Login.{
  mark_logged_in, login_with_credentials, login_with_pin, login_without_pin, login, login_on,
  split_client_creds,
}

get-set_logged_in :
    (h j : ℕ) (on : Bool) (s : Session) (m : SessionManager)
    → get h m ≡ some s
    → get j (set_logged_in h on m)
      ≡ (if h == j then some (record s { logged_in = on }) else get j m)
unfolding get set_logged_in
get-set_logged_in h j on s m there =
    ground (arith, there, lookup-insert h j (record s { logged_in = on }) m.sessions)

-- The sessions after `setLoggedIn` and `setAllLoggedInForSlot`.
get-marked :
    (h j : ℕ) (s t : Session) (m : SessionManager)
    → get h m ≡ some s
    → get j m ≡ some t
    → get j (set_all_logged_in_for_slot s.slot_id true (set_logged_in h true m))
      ≡ some (set_for_slot s.slot_id true t)
get-marked h j s t m there found = ground (
  arith,
  there,
  found,
  get-set_logged_in h j true s m there,
  get-set_all s.slot_id j true (set_logged_in h true m),
)

module _ (v : Service) where
  open v use {World}

  module _ (sh : ℕ) (s : Session) (b : Backend World) (there : get sh b.sessions ≡ some s) (j : ℕ)
      (t : Session) (found : get j b.sessions ≡ some t) where
    -- What a login leaves of session `j`, if it succeeds and if it fails.
    abbrev Marked : Outcome (Unit {0}) → Backend World → Type 0
    Marked r b' = get j b'.sessions ≡ some (elim r [ ok _ ↦ set_for_slot s.slot_id true t | _ ↦ t ])

    abbrev IsMarked : Outcome (Unit {0}) × Backend World → Type 0
    IsMarked (r, b') = Marked r b'

    mark-IsMarked :
        (c : Backend World) → c.sessions ≡ b.sessions → IsMarked (mark_logged_in v sh s.slot_id c)
    unfolding mark_logged_in
    mark-IsMarked c same = rw same (get-marked sh j s t b.sessions there found)

    credentials-IsMarked :
        (id secret : Bytes) → IsMarked (login_with_credentials v sh s.slot_id id secret b)
    unfolding login_with_credentials
    credentials-IsMarked id secret =
        grind (arith, found, authenticate-Frame v id secret b, mark-IsMarked)

    pin-IsMarked : (pin : Bytes) → IsMarked (login_with_pin v sh s.slot_id pin b)
    unfolding login_with_pin
    pin-IsMarked pin = elim (Option-cases (split_client_creds pin)) [
      | inl e ↦ rw (e, login_with_pin) (mark-IsMarked _ refl)
      | inr ((client_id, secret), e) ↦
          rw (e, login_with_pin) (credentials-IsMarked client_id secret)
    ]

    no_pin-IsMarked : IsMarked (login_without_pin v sh s.slot_id b)
    unfolding login_without_pin
    no_pin-IsMarked =
        let auth = b.config.auth in
        ground (
          arith,
          found,
          credentials-IsMarked auth.client_id auth.client_secret,
          mark-IsMarked b refl,
        )

    -- A login that succeeds, with a PIN of either form or without one, logs in every session of the
    -- slot of its session and leaves the sessions of other slots as they were; one that fails leaves
    -- every session as it was.
    pub login_unlocks_slot :
        (pin : Bytes)
        → let (r, b') = login v sh pin b in
          get j b'.sessions ≡ some (elim r [ ok _ ↦ set_for_slot s.slot_id true t | _ ↦ t ])
    unfolding login login_on get_session
    login_unlocks_slot pin = ground (arith, there, pin-IsMarked pin, no_pin-IsMarked)
