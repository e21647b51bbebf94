-- ===== src/Domains.antt =====
-- RI/services/example_mcp_servers/: the two example backends, and what their stores of numbered
-- documents share. `{n:03d}` of a counter is an argument.
pub mod Sales
pub mod Finance
use enterprise_mcp_service_b.Base.{
  ℕ, ◌+◌, ◌<◌, String, ◌≡◌, sym, ap, ◌∙◌, subst, Option, none, some, Option-cases, ◌⊎◌, inl, inr,
  Dict, get, put, get-put, ◌==◌, eq_iff, Bool-cases, if◌then◌else◌, arith,
}
use enterprise_mcp_service_b.Json.{Json, Fields, str, field, end, get_field}

-- `{"error": "not_found", key: id}`
abbrev pub not_found : String → String → Fields
not_found key id = field "error" (str "not_found") (field key (str id) end)

-- A look-up that answers the document, or that there is none
abbrev pub found_or : String → String → Option Fields → Fields
found_or key id none = not_found key id
found_or key id (some document) = document

-- Different numbers have different texts.
abbrev pub Injective : (ℕ → String) → Type 0
Injective text = (a b : ℕ) → text a ≡ text b → a ≡ b
