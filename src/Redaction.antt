-- ===== src/Redaction.antt =====
-- The redaction of audit payloads (src/logging/redact.rs).
pub mod Secrets
use agent_kuibysheff.Common.{
  ℕ, ◌≤◌, Bool, true, false, not, List, [], ◌∷◌, ◌++◌, ◌==◌, nat_eq, list_eq, if◌then◌else◌,
  is_empty, contains, leb, length, take, max, map, Text, text, trim, to_ascii_lowercase, insert,
  extend, text_ord,
}
use agent_kuibysheff.Common.Json.{
  Value, null, bool, number, string, array, object, Items, nil, cons, Fields, end, field,
}

abbrev pub default_sensitive_keys : List Text
default_sensitive_keys =
    text "api_key"
    ∷ text "authorization"
    ∷ text "password"
    ∷ text "secret"
    ∷ text "token"
    ∷ text "access_token"
    ∷ text "refresh_token"
    ∷ text "client_secret"
    ∷ text "private_key"
    ∷ text "cookie"
    ∷ text "set-cookie"
    ∷ text "bearer"
    ∷ []

abbrev pub redacted : Text
redacted = text "[REDACTED]"

abbrev pub truncated_suffix : Text
truncated_suffix = 0x2026 ∷ text "[truncated]"

pub record AuditRedactionConfig : Type 0 where
  pub enabled : Bool
  pub max_string_chars : ℕ
  pub extra_sensitive_keys : List Text

pub record AuditRedactionPolicy : Type 0 where
  pub enabled : Bool
  pub max_string_chars : ℕ
  pub sensitive_keys : List Text

abbrev pub lowercase : Text → Text
lowercase t = map to_ascii_lowercase t

-- The loop over the keys of the configuration; a `HashSet` is the list of its elements.
unfoldable pub add_keys : List Text → List Text → List Text
unfolding trim to_ascii_lowercase
add_keys keys [] = keys
add_keys keys (key ∷ more) =
    let normalized = lowercase (trim key) in
    add_keys (if is_empty normalized then keys else normalized ∷ keys) more

-- `AuditRedactionPolicy::from_config`
unfoldable pub from_config : AuditRedactionConfig → AuditRedactionPolicy
unfolding add_keys
from_config config = record {
  enabled = config.enabled;
  max_string_chars = max config.max_string_chars 1;
  sensitive_keys = add_keys default_sensitive_keys config.extra_sensitive_keys;
}

unfoldable pub is_sensitive_key : AuditRedactionPolicy → Text → Bool
unfolding contains to_ascii_lowercase
is_sensitive_key policy key = contains policy.sensitive_keys (lowercase key)

unfoldable pub truncate_utf8_chars : Text → ℕ → Text
truncate_utf8_chars t max_chars =
    if leb (length t) max_chars then t else take max_chars t ++ truncated_suffix

-- The keys of a map are different from one another, so an entry keeps its place.
unfoldable mutual
  unfolding is_sensitive_key truncate_utf8_chars

  pub redact_node : AuditRedactionPolicy → Bool → Value → Value
  redact_node policy true value = string redacted
  redact_node policy false (object map) = object (redact_fields policy map)
  redact_node policy false (array items) = array (redact_items policy items)
  redact_node policy false (string t) = string (truncate_utf8_chars t policy.max_string_chars)
  redact_node policy false null = null
  redact_node policy false (bool b) = bool b
  redact_node policy false (number n) = number n

  pub redact_items : AuditRedactionPolicy → Items → Items
  redact_items policy nil = nil
  redact_items policy (cons item items) =
      cons (redact_node policy false item) (redact_items policy items)

  pub redact_fields : AuditRedactionPolicy → Fields → Fields
  redact_fields policy end = end
  redact_fields policy (field key child more) =
      field key (redact_node policy (is_sensitive_key policy key) child) (redact_fields policy more)

unfoldable pub redact_value : Value → AuditRedactionPolicy → Value
unfolding redact_node
redact_value value policy = if not policy.enabled then value else redact_node policy false value
