-- ===== src/Scope/Defs.antt =====
-- signing_context.go: the context, the metadata of a sign call and the scope of a request.
use infisical_pkcs.Base.{
  List, [], ◌∷◌, Option, none, some, Bytes, text, is_empty, bytes_eq, if◌then◌else◌,
}

pub record SigningContext : Type 0 where
  pub command : Bytes
  pub application : Bytes
  pub application_hash : Bytes
  pub hostname : Bytes
  pub os_username : Bytes

pub record ClientMetadata : Type 0 where
  pub tool : Bytes
  pub signing_application_hash : Bytes
  pub hostname : Bytes
  pub os_username : Bytes
  pub command : Bytes

-- `ip_address` is raw JSON, empty if the field is omitted.
pub record SigningScope : Type 0 where
  pub command : Bytes
  pub signing_application : Bytes
  pub signing_application_hash : Bytes
  pub hostname : Bytes
  pub os_username : Bytes
  pub ip_address : Bytes
  pub data_hash : Bytes

unfoldable pub client_metadata : SigningContext → ClientMetadata
client_metadata c = record {
  tool = c.application;
  signing_application_hash = c.application_hash;
  hostname = c.hostname;
  os_username = c.os_username;
  command = c.command;
}

abbrev pub scope_skipped : Bytes
scope_skipped = text "null"

-- The effect of one excluded field.
unfoldable pub exclude_field : Bytes → SigningScope → SigningScope
unfolding bytes_eq
exclude_field name s =
    if bytes_eq name (text "command")
    then record s { command = [] }
    else if bytes_eq name (text "signing_application")
    then record s { signing_application = [] }
    else if bytes_eq name (text "signing_application_hash")
    then record s { signing_application_hash = [] }
    else if bytes_eq name (text "hostname")
    then record s { hostname = [] }
    else if bytes_eq name (text "os_username")
    then record s { os_username = [] }
    else if bytes_eq name (text "ip_address")
    then record s { ip_address = scope_skipped }
    else if bytes_eq name (text "data_hash")
    then record s { data_hash = [] }
    else s

unfoldable pub exclude_fields : List Bytes → SigningScope → SigningScope
unfolding exclude_field
exclude_fields [] s = s
exclude_fields (name ∷ names) s = exclude_fields names (exclude_field name s)

-- `marshal_text` is `json.Marshal` of a string.
abbrev pinned : (marshal_text : Bytes → Option Bytes) → Bytes → Bytes
pinned marshal_text address =
    if is_empty address then [] else elim (marshal_text address) [ none ↦ [] | some json ↦ json ]

unfoldable pub request_scope :
    (marshal_text : Bytes → Option Bytes)
    → SigningContext
    → Bytes
    → List Bytes
    → Bytes
    → SigningScope
unfolding exclude_fields
request_scope marshal_text c data_hash excluded pinned_ip_address =
    exclude_fields excluded (record {
      command = c.command;
      signing_application = c.application;
      signing_application_hash = c.application_hash;
      hostname = c.hostname;
      os_username = c.os_username;
      ip_address = pinned marshal_text pinned_ip_address;
      data_hash = data_hash;
    })
