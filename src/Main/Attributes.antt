-- ===== src/Main/Attributes.antt =====
-- main.go: `C_GetAttributeValue`.
use infisical_pkcs.Base.{ℕ, List, [], Option, none, some, map, take, ltb, if◌then◌else◌}
use infisical_pkcs.Constants.{ckr_arguments_bad}
use infisical_pkcs.Slots.{Attribute}
use infisical_pkcs.Backend.State.{Env, Method, ◌>>=◌, pure}
use infisical_pkcs.Backend.Attributes.{get_attribute_value}
use infisical_pkcs.Main.Reply.{catch_error, when_initialized}
use infisical_pkcs.Main.Buffers.{AttributeBuffer, AttributeReply, write_attributes}
use infisical_pkcs.Main.Search.{max_template_attrs}

-- The return value, and what became of each attribute that was looked at.
pub record AttributesReply : Type 0 where
  pub rv : ℕ
  pub attributes : List AttributeReply

abbrev pub attributes_rv : ℕ → AttributesReply
attributes_rv rv = record { rv = rv; attributes = [] }

-- Only the types of the template go to the backend.
abbrev pub asked : List AttributeBuffer → List Attribute
asked = map (λ (slot : AttributeBuffer). record { kind = slot.kind; value = none })

abbrev pub written : ℕ × List AttributeReply → AttributesReply
written (rv, attributes) = record { rv = rv; attributes = attributes }

module _ (e : Env) where
  open e use {service}

  -- `count` is `ulCount`, and `template` what `pTemplate` points to.
  unfoldable pub c_get_attribute_value :
      ℕ → ℕ → (count : ℕ) → Option (List AttributeBuffer) → Method service.World AttributesReply
  c_get_attribute_value sh obj count none =
      when_initialized e attributes_rv (pure (attributes_rv ckr_arguments_bad))
  c_get_attribute_value sh obj count (some template) = when_initialized e attributes_rv (
      if ltb max_template_attrs count
      then pure (attributes_rv ckr_arguments_bad)
      else catch_error e attributes_rv (
          get_attribute_value e sh obj (asked (take count template)) >>= λ results.
          pure (written (write_attributes (take count template) results))))
