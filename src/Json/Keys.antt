-- ===== src/Json/Keys.antt =====
-- Objects with their keys in order, as `sorted(arguments)` and `json.dumps(..., sort_keys=True)`
-- take them.
use enterprise_mcp_service_b.Base.{String, str_leb, if◌then◌else◌}
use enterprise_mcp_service_b.Json.{
  Json, Items, Fields, null, bool, int, float, str, arr, obj, nil, cons, end, field,
}

unfoldable pub insert_field : String → Json → Fields → Fields
insert_field key value end = field key value end
insert_field key value (field k v fs) =
    if str_leb key k then field key value (field k v fs) else field k v (insert_field key value fs)

-- The keys of one object in order.
unfoldable pub sort_fields : Fields → Fields
unfolding insert_field
sort_fields end = end
sort_fields (field k v fs) = insert_field k v (sort_fields fs)

-- The keys of every object inside a value in order.
unfoldable mutual
  pub sort_keys : Json → Json
  sort_keys null = null
  sort_keys (bool b) = bool b
  sort_keys (int n) = int n
  sort_keys (float t) = float t
  sort_keys (str t) = str t
  sort_keys (arr xs) = arr (sort_items xs)
  sort_keys (obj fs) = obj (sort_object fs)

  pub sort_items : Items → Items
  sort_items nil = nil
  sort_items (cons x xs) = cons (sort_keys x) (sort_items xs)

  pub sort_object : Fields → Fields
  sort_object end = end
  sort_object (field k v fs) = insert_field k (sort_keys v) (sort_object fs)
