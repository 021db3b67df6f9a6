-- ===== src/Scope/Exclusions.antt =====
-- What the exclusions of the configuration take out of an approval request, and what they leave.
use infisical_pkcs.Base.{
  ◌≡◌, refl, ◌∙◌, ap, Bool, true, false, List, [], ◌∷◌, Bytes, text, bytes_eq, arith, contains_text,
  if◌then◌else◌, any, Bool-cases, inl, inr, bytes_eq-sym, bytes_eq→eq,
}
use infisical_pkcs.Scope.Defs.{SigningScope, scope_skipped, exclude_field, exclude_fields}

-- What stands in a field: `skipped` if its name is excluded.
abbrev kept : List Bytes → Bytes → Bytes → Bytes → Bytes
kept excluded name skipped value = if contains_text excluded name then skipped else value

-- What the exclusion of `names` makes of a scope.
abbrev pub narrowed : List Bytes → SigningScope → SigningScope
narrowed names s = record {
  command = kept names (text "command") [] s.command;
  signing_application = kept names (text "signing_application") [] s.signing_application;
  signing_application_hash =
      kept names (text "signing_application_hash") [] s.signing_application_hash;
  hostname = kept names (text "hostname") [] s.hostname;
  os_username = kept names (text "os_username") [] s.os_username;
  ip_address = kept names (text "ip_address") scope_skipped s.ip_address;
  data_hash = kept names (text "data_hash") [] s.data_hash;
}

keep_same : (excluded : Bool) (x : Bytes) → (if excluded then x else x) ≡ x
keep_same true x = refl
keep_same false x = refl

narrowed-exclude :
    (name : Bytes) (names : List Bytes) (s : SigningScope)
    → narrowed names (exclude_field name s) ≡ narrowed (name ∷ names) s
unfolding exclude_field any bytes_eq
narrowed-exclude name names s = elim (Bool-cases (bytes_eq name (text "command"))) [
  | inl same ↦ rw (bytes_eq→eq name (text "command") same) (
      ap (λ x. record (narrowed names s) { command = x })
        (keep_same (contains_text names (text "command")) []))
  | inr other_command ↦ elim (Bool-cases (bytes_eq name (text "signing_application"))) [
    | inl same ↦ rw (bytes_eq→eq name (text "signing_application") same) (
        ap (λ x. record (narrowed names s) { signing_application = x })
          (keep_same (contains_text names (text "signing_application")) []))
    | inr other_signing_application ↦
        elim (Bool-cases (bytes_eq name (text "signing_application_hash"))) [
          | inl same ↦ rw (bytes_eq→eq name (text "signing_application_hash") same) (
              ap (λ x. record (narrowed names s) { signing_application_hash = x })
                (keep_same (contains_text names (text "signing_application_hash")) []))
          | inr other_signing_application_hash ↦
              elim (Bool-cases (bytes_eq name (text "hostname"))) [
                | inl same ↦ rw (bytes_eq→eq name (text "hostname") same) (
                    ap (λ x. record (narrowed names s) { hostname = x })
                      (keep_same (contains_text names (text "hostname")) []))
                | inr other_hostname ↦ elim (Bool-cases (bytes_eq name (text "os_username"))) [
                  | inl same ↦ rw (bytes_eq→eq name (text "os_username") same) (
                      ap (λ x. record (narrowed names s) { os_username = x })
                        (keep_same (contains_text names (text "os_username")) []))
                  | inr other_os_username ↦ elim (Bool-cases (bytes_eq name (text "ip_address"))) [
                    | inl same ↦ rw (bytes_eq→eq name (text "ip_address") same) (
                        ap (λ x. record (narrowed names s) { ip_address = x })
                          (keep_same (contains_text names (text "ip_address")) scope_skipped))
                    | inr other_ip_address ↦ elim (Bool-cases (bytes_eq name (text "data_hash"))) [
                      | inl same ↦ rw (bytes_eq→eq name (text "data_hash") same) (
                          ap (λ x. record (narrowed names s) { data_hash = x })
                            (keep_same (contains_text names (text "data_hash")) []))
                      | inr other_data_hash ↦ ground (
                        arith,
                        other_command,
                        bytes_eq-sym (text "command") name,
                        other_signing_application,
                        bytes_eq-sym (text "signing_application") name,
                        other_signing_application_hash,
                        bytes_eq-sym (text "signing_application_hash") name,
                        other_hostname,
                        bytes_eq-sym (text "hostname") name,
                        other_os_username,
                        bytes_eq-sym (text "os_username") name,
                        other_ip_address,
                        bytes_eq-sym (text "ip_address") name,
                        other_data_hash,
                        bytes_eq-sym (text "data_hash") name,
                      )
                    ]
                  ]
                ]
              ]
        ]
  ]
]

-- The loop of `requestScope` over the excluded fields does to each field what its name asks for,
-- whatever the order and the repetitions: an excluded field is emptied (the address becomes the JSON
-- `null`), and no other field changes.
pub exclude_fields_lem :
    (names : List Bytes) (s : SigningScope) → exclude_fields names s ≡ narrowed names s
unfolding exclude_fields any
exclude_fields_lem [] s = refl
exclude_fields_lem (name ∷ names) s =
    exclude_fields_lem names (exclude_field name s) ∙ narrowed-exclude name names s
