-- ===== src/Json.antt =====
-- The values of JSON documents, as Python holds them, and what the program takes from the standard
-- library and from hashing.
pub mod Keys
use enterprise_mcp_service_b.Base.{
  ◌≡◌, refl, eq_iff, arith, ℕ, zero, not, ◌||◌, String, Bool, true, false, Option, none, some, List,
  [], ◌∷◌, ◌==◌, if◌then◌else◌,
}

-- An integer: `negsuc n` is -(n + 1).
pub data ℤ : Type 0 where
  pos : ℕ → ℤ
  negsuc : ℕ → ℤ

mutual
  -- A float stands as its `repr`.
  pub data Json : Type 0 where
    null : Json
    bool : Bool → Json
    int : ℤ → Json
    float : String → Json
    str : String → Json
    arr : Items → Json
    obj : Fields → Json

  pub data Items : Type 0 where
    nil : Items
    cons : Json → Items → Items

  pub data Fields : Type 0 where
    end : Fields
    field : String → Json → Fields → Fields

-- `d.get(key)`
unfoldable pub get_field : Fields → String → Option Json
get_field end key = none
get_field (field k v fs) key = if k == key then some v else get_field fs key

-- `d[key] = value` on a document
unfoldable pub put_field : Fields → String → Json → Fields
put_field end key value = field key value end
put_field (field k v rest) key value =
    if k == key then field k value rest else field k v (put_field rest key value)

pub get-put_field :
    (fs : Fields) (key other : String) (value : Json)
    → get_field (put_field fs key value) other
      ≡ (if key == other then some value else get_field fs other)
unfolding put_field get_field
get-put_field end key other value = refl
get-put_field (field k v rest) key other value =
    ground
      (arith, eq_iff k key, eq_iff k other, eq_iff key other, get-put_field rest key other value)

abbrev pub items_of : List String → Items
items_of [] = nil
items_of (s ∷ ss) = cons (str s) (items_of ss)

abbrev pub str_or_null : Option String → Json
str_or_null none = null
str_or_null (some s) = str s

-- `hashlib.sha256(text.encode()).hexdigest()`, and the texts of values that `str`, `repr` and
-- `json.dumps` give.
pub record Runtime : Type 0 where
  pub sha256 : String → String
  pub str_of : Json → String
  pub repr_of : Json → String
  pub dumps : Json → String
  -- pydantic's `model_dump_json`
  pub model_json : Json → String
  -- `int(value)`, where it does not raise
  pub int_of : Json → Option ℤ

-- `bool(value)`
abbrev pub truthy : Json → Bool
truthy null = false
truthy (bool b) = b
truthy (int (pos zero)) = false
truthy (int n) = true
truthy (float t) = not (t == "0.0" || t == "-0.0")
truthy (str t) = not (t == "")
truthy (arr nil) = false
truthy (arr xs) = true
truthy (obj end) = false
truthy (obj fs) = true

-- What an HTTP request comes back with: an error of the client library, which a status that is no
-- success raises too, a body that is not JSON, or a document.
pub data HttpReply : Type 0 where
  http_error not_json : HttpReply
  answered : Json → HttpReply
