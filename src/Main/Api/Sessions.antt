-- ===== src/Main/Api/Sessions.antt =====
-- What the endings of the exported functions do to the sessions.
use infisical_pkcs.Base.{
  ℕ, ◌+◌, ◌^◌, ◌≤◌, ◌<◌, ◌≡◌, refl, Bool, true, false, arith, Bytes, length, ltb, is_empty,
  if◌then◌else◌, Bool-cases, Option-cases, inl, inr,
}
use infisical_pkcs.Outcome.{Outcome, ok, err, panic}
use infisical_pkcs.Slots.{get, put}
use infisical_pkcs.Slots.Sessions.{IsValid}
use infisical_pkcs.Backend.State.{Env, Backend, Method, ◌>>=◌, pure}
use infisical_pkcs.Backend.Signing.{
  cache_sign_result, clear_sign_state_by_handle, estimate_signature_size,
}
use infisical_pkcs.Backend.Calls.{Call, step}
use infisical_pkcs.Backend.Invariant.Login.{
  clear_sign_state_by_handle-IsValid, cache_sign_result-IsValid,
}
use infisical_pkcs.Backend.Invariant.Handles.{step-next}
use infisical_pkcs.Backend.Invariant.History.{step-IsValid}
use infisical_pkcs.Backend.Frame.{get_signer_by_slot-Frame}
use infisical_pkcs.Main.Reply.{catch_error, when_initialized, plain_call}
use infisical_pkcs.Main.Signing.Protocol.{too_small, delivered}
use infisical_pkcs.Main.Signing.{rv_reply, copy_signature, size_query, deliver}

-- Valid sessions stay valid, as long as there is a handle left, and at most one handle is used up.
pub record Grows {W : Type 0} (b b' : Backend W) : Type 0 where
  pub valid : b.sessions.next_id + 1 < 2 ^ 64 → IsValid b.sessions → IsValid b'.sessions
  pub next : b'.sessions.next_id ≤ b.sessions.next_id + 1

-- The same, with no handle used up.
pub record IsSteady {W : Type 0} (b b' : Backend W) : Type 0 where
  pub valid : IsValid b.sessions → IsValid b'.sessions
  pub next : b'.sessions.next_id ≡ b.sessions.next_id

module _ {W : Type 0} where
  pub steady-Grows : (b b' : Backend W) → IsSteady b b' → Grows b b'
  steady-Grows b b' h = record { valid = λ room v. h.valid v; next = omega (arith, h.next) }

  pub same-IsSteady : (b b' : Backend W) → b'.sessions ≡ b.sessions → IsSteady b b'
  same-IsSteady b b' same = record { valid = λ v. rw same v; next = rw same refl }

  chain-IsSteady : (b c d : Backend W) → IsSteady b c → IsSteady c d → IsSteady b d
  chain-IsSteady b c d h k = record {
    valid = λ v. k.valid (h.valid v);
    next = ground (arith, h.next, k.next);
  }

  -- A value made of what a call returned leaves the state of the call.
  pub then_pure-state :
      {A B : Type 0} (m : Method W A) (f : A → B) (b : Backend W)
      → ((m >>= λ a. pure (f a)) b).1 ≡ (m b).1
  then_pure-state m f b = ground arith

  bind-IsSteady :
      {A B : Type 0} (m : Method W A) (f : A → Method W B) (b : Backend W) (r : Outcome A)
      → (m b).0 ≡ r
      → IsSteady b (m b).1
      → ((a : A) (c : Backend W) → IsSteady c (f a c).1)
      → IsSteady b ((m >>= f) b).1
  bind-IsSteady m f b (ok a) e h k =
      let same : ((m >>= f) b).1 ≡ (f a (m b).1).1 = ground (arith, e) in
      rw same (chain-IsSteady b (m b).1 (f a (m b).1).1 h (k a (m b).1))
  bind-IsSteady m f b (err failure) e h k =
      let same : ((m >>= f) b).1 ≡ (m b).1 = ground (arith, e) in rw same h
  bind-IsSteady m f b panic e h k =
      let same : ((m >>= f) b).1 ≡ (m b).1 = ground (arith, e) in rw same h

  pub same-Grows : (b : Backend W) → Grows b b
  same-Grows b = steady-Grows b b (same-IsSteady b b refl)

module _ (e : Env) where
  open e use {service}

  pub step-Grows : (c : Call) (b : Backend service.World) → Grows b (step e c b)
  step-Grows c b = record { valid = λ room v. step-IsValid e c b v room; next = step-next e c b }

  -- The states that the endings of the exported functions leave.
  catch_error-state :
      {R : Type 0} (reply : ℕ → R) (m : Method service.World R) (b : Backend service.World)
      → (catch_error e reply m b).1 ≡ (m b).1
  unfolding catch_error
  catch_error-state reply m b = ground arith

  plain_call-state :
      (m : Method service.World (Unit {0})) (b : Backend service.World)
      → (plain_call e m b).1 ≡ (if b.initialized then (m b).1 else b)
  unfolding plain_call catch_error when_initialized
  plain_call-state m b = ground arith

  pub when_initialized-Grows :
      {R : Type 0} (reply : ℕ → R) (m : Method service.World R) (b : Backend service.World)
      → Grows b (m b).1
      → Grows b (when_initialized e reply m b).1
  unfolding when_initialized
  when_initialized-Grows reply m b h = elim (Bool-cases b.initialized) [
    | inl on ↦ simp on h
    | inr out ↦ simp out (same-Grows b)
  ]

  pub caught-Grows :
      {R : Type 0} (reply : ℕ → R) (m : Method service.World R) (b : Backend service.World)
      → Grows b (m b).1
      → Grows b (when_initialized e reply (catch_error e reply m) b).1
  caught-Grows reply m b h =
      when_initialized-Grows reply (catch_error e reply m) b (rw (catch_error-state reply m b) h)

  pub plain_call-Grows :
      (m : Method service.World (Unit {0})) (b : Backend service.World)
      → Grows b (m b).1
      → Grows b (plain_call e m b).1
  plain_call-Grows m b h = elim (Bool-cases b.initialized) [
    | inl on ↦ rw (plain_call-state m b) (simp on h)
    | inr out ↦ rw (plain_call-state m b) (simp out (same-Grows b))
  ]

  cache-IsSteady :
      (sh : ℕ) (signature : Bytes) (b : Backend service.World)
      → IsSteady b (cache_sign_result e sh signature b).1
  unfolding put
  cache-IsSteady sh signature b = record {
    valid = cache_sign_result-IsValid e sh signature b;
    next = unfold cache_sign_result in ground arith;
  }

  clear-IsSteady :
      (sh : ℕ) (b : Backend service.World) → IsSteady b (clear_sign_state_by_handle e sh b).1
  unfolding put
  clear-IsSteady sh b = record {
    valid = clear_sign_state_by_handle-IsValid e sh b;
    next = unfold clear_sign_state_by_handle in ground arith;
  }

  copy_signature-IsSteady :
      (sh room : ℕ) (signature : Bytes) (b : Backend service.World)
      → IsSteady b (copy_signature e sh room signature b).1
  unfolding copy_signature
  copy_signature-IsSteady sh room signature b = elim (Bool-cases (ltb room (length signature))) [
    | inl small ↦ simp small (
        rw (then_pure-state (cache_sign_result e sh signature) (λ done. too_small signature) b)
          (cache-IsSteady sh signature b))
    | inr large ↦ elim (Bool-cases (is_empty signature)) [
      | inl none_there ↦ simp (large, none_there) (same-IsSteady b b refl)
      | inr there ↦
          simp (large, there)
            (rw (then_pure-state (clear_sign_state_by_handle e sh) (λ done. delivered signature) b)
              (clear-IsSteady sh b))
    ]
  ]

  size_query-sessions :
      (sh : ℕ) (b : Backend service.World) → (size_query e sh b).1.sessions ≡ b.sessions
  unfolding size_query estimate_signature_size
  size_query-sessions sh b = elim (Option-cases (get sh b.sessions)) [
    | inl there ↦ ground (arith, there)
    | inr (s, there) ↦ ground (arith, there, get_signer_by_slot-Frame service s.sign_key_index b)
  ]

  pub signing-Grows :
      (sh room : ℕ) (has_buffer : Bool) (signing : Method service.World Bytes)
      (b : Backend service.World)
      → IsSteady b (signing b).1
      → Grows b (deliver e sh has_buffer room signing b).1
  unfolding deliver
  signing-Grows sh room true signing b h =
      let m = signing >>= λ signature. copy_signature e sh room signature in
      rw (catch_error-state rv_reply m b) (
        steady-Grows b (m b).1 (
          bind-IsSteady signing (copy_signature e sh room) b (signing b).0 refl h
            (copy_signature-IsSteady sh room)))
  signing-Grows sh room false signing b h =
      steady-Grows b (size_query e sh b).1
        (same-IsSteady b (size_query e sh b).1 (size_query-sessions sh b))
