-- ===== src/Audit/Sanitize.antt =====
-- RI/src/emcp_bus/audit/models.py: the event envelope, and `_sanitize`.
pub mod Secrecy
use enterprise_mcp_service_b.Base.{
  ℕ, String, Bool, Option, List, [], ◌∷◌, has_marker, ◌<>◌, if◌then◌else◌,
}
use enterprise_mcp_service_b.Json.{
  Json, Items, Fields, null, bool, int, float, str, arr, obj, nil, cons, end, field, Runtime,
}

-- `_SENSITIVE_KEY_MARKERS`
abbrev pub sensitive_key_markers : List String
sensitive_key_markers = "token" ∷ "secret" ∷ "password" ∷ "authorization" ∷ "credential" ∷ []

pub data EventCategory : Type 0 where
  ic noc grl : EventCategory

unfoldable pub is_sensitive : String → Bool
is_sensitive key = has_marker sensitive_key_markers key

module _ (rt : Runtime) where
  abbrev pub reference : Json → Json
  reference inner = str ("sha256:" <> rt.sha256 (rt.str_of inner))

  unfoldable mutual
    pub sanitize : Json → Json
    sanitize null = null
    sanitize (bool b) = bool b
    sanitize (int n) = int n
    sanitize (float t) = float t
    sanitize (str t) = str t
    sanitize (arr xs) = arr (sanitize_items xs)
    sanitize (obj fs) = obj (sanitize_fields fs)

    pub sanitize_items : Items → Items
    sanitize_items nil = nil
    sanitize_items (cons x xs) = cons (sanitize x) (sanitize_items xs)

    pub sanitize_fields : Fields → Fields
    sanitize_fields end = end
    sanitize_fields (field key inner fs) =
        field key (if is_sensitive key then reference inner else sanitize inner)
          (sanitize_fields fs)

pub record EventEnvelope : Type 0 where
  pub event_id : String
  pub event_type : String
  pub category : EventCategory
  pub timestamp : ℕ
  pub client_id : Option String
  pub profile_name : Option String
  pub tool : Option String
  pub reason_code : Option String
  pub decision_id : Option String
  pub policy_decision_id : Option String
  pub entitlement_version : Option String
  pub policy_version : Option String
  pub mcp_request_id : Option String
  pub trace_id : Option String
  pub payload : Fields

-- `model_post_init`: every construction of an envelope ends with it.
unfoldable pub model_post_init : Runtime → EventEnvelope → EventEnvelope
model_post_init rt event = record event { payload = sanitize_fields rt event.payload }
