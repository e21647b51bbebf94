-- ===== src/Redaction.antt =====
-- RI/src/emcp_bus/common/pii_redaction.py: what is redacted before a trace leaves. The substitutions of
-- the three patterns of `re` are arguments.
pub mod Cleaned
use enterprise_mcp_service_b.Base.{
  String, Bool, true, false, List, [], ◌∷◌, has_marker, if◌then◌else◌,
}
use enterprise_mcp_service_b.Json.{
  Json, Items, Fields, null, bool, int, float, str, arr, obj, nil, cons, end, field,
}

-- `_EMAIL_PATTERN.sub(_REDACTION_MARK, text)`, and so on
pub record Patterns : Type 0 where
  pub sub_email : String → String
  pub sub_cpf : String → String
  pub sub_phone : String → String

-- `_SENSITIVE_KEY_MARKERS`
abbrev sensitive_key_markers : List String
sensitive_key_markers = "email" ∷ "cpf" ∷ "ssn" ∷ "phone" ∷ "token" ∷ "secret" ∷ "password" ∷ []

unfoldable pub is_sensitive : String → Bool
is_sensitive key = has_marker sensitive_key_markers key

abbrev pub redaction_mark : String
redaction_mark = "[REDACTED]"

module _ (p : Patterns) where
  unfoldable pub redact_text : String → String
  redact_text text = p.sub_phone (p.sub_cpf (p.sub_email text))

  unfoldable mutual
    -- `redact_mapping`
    pub redact_mapping : Fields → Fields
    redact_mapping end = end
    redact_mapping (field key value rest) =
        field key (if is_sensitive key then str redaction_mark else redact_value value)
          (redact_mapping rest)

    pub redact_value : Json → Json
    redact_value (obj fs) = obj (redact_mapping fs)
    redact_value (arr xs) = arr (redact_items xs)
    redact_value (str t) = str (redact_text t)
    redact_value null = null
    redact_value (bool b) = bool b
    redact_value (int n) = int n
    redact_value (float t) = float t

    -- The items of a list: a list among them is kept as it is.
    pub redact_items : Items → Items
    redact_items nil = nil
    redact_items (cons x xs) = cons (redact_item x) (redact_items xs)

    pub redact_item : Json → Json
    redact_item (obj fs) = obj (redact_mapping fs)
    redact_item (str t) = str (redact_text t)
    redact_item (arr xs) = arr xs
    redact_item null = null
    redact_item (bool b) = bool b
    redact_item (int n) = int n
    redact_item (float t) = float t
