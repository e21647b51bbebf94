-- ===== src/Examples/Adapters.antt =====
-- Calls through the REST adapter.
use mathlib.Core.List.{[], ◌∷◌}
use enterprise_mcp_service_b.Base.{String, ◌≡◌, refl, ◌⊎◌, none, some, ok, err, get}
use enterprise_mcp_service_b.Json.{Json, Fields, str, obj, field, end, get_field, Runtime}
use enterprise_mcp_service_b.Fabric.Rest.{
  RestOperation, RestBackendConfig, RestRequest, RestReply, get_method, post_method, answered,
  unknown_operation, occurs, fill, replace_from, rest_call,
}
use enterprise_mcp_service_b.Fabric.Rest.Arguments.{Sends, rest_call_lem}
use enterprise_mcp_service_b.Examples.Samples.{rt}

abbrev crm : RestBackendConfig
crm = record {
  backend = "crm";
  base_url = "http://crm";
  operations =
      ("crm.customer.get", record { method = get_method; path = "/v2/customers/{id}" })
      ∷ ("crm.note.create", record { method = post_method; path = "/v2/customers/{id}/notes" })
      ∷ [];
}

-- The backend answers with what it got.
abbrev echo : RestRequest → RestReply
echo q = answered (obj (field "path" (str q.path) end))

abbrev note : Fields
note = field "text" (str "hello") (field "id" (str "c1") end)

abbrev text_of : Json → String
text_of (str s) = s
text_of _ = "other"

abbrev plain : Runtime
plain = record rt { str_of = text_of }

rest_call_lem_example :
    ((get crm.operations "crm.note.create" ≡ none)
      × (rest_call plain crm echo "crm.note.create" note (some "s3") []
          ≡ (err (unknown_operation "crm" "crm.note.create"), [])))
    ⊎ ((operation : RestOperation) × (get crm.operations "crm.note.create" ≡ some operation)
        × Sends plain echo operation note
            (some "s3")
            []
            (rest_call plain crm echo "crm.note.create" note (some "s3") []))
unfolding get_field
rest_call_lem_example =
    rest_call_lem plain crm echo "crm.note.create" note (some "s3") [] (refl, (refl, tt))

-- The id goes into the path, and the text into the body.
noted : rest_call plain crm echo "crm.note.create" note (some "s3") [] ≡ (
  ok (obj (field "path" (str "/v2/customers/c1/notes") end)),
  record {
    method = post_method;
    path = "/v2/customers/c1/notes";
    params = none;
    json = some (field "text" (str "hello") end);
    authorization = some "Bearer s3";
  }
      ∷ [],
)
unfolding rest_call fill occurs replace_from get
noted = refl

-- A text that holds a placeholder takes another argument into the path.
abbrev crafted : Fields
crafted = field "id" (str "{text}") (field "text" (str "hello") end)

moved :
    (rest_call plain crm echo "crm.note.create" crafted none []).0
    ≡ ok (obj (field "path" (str "/v2/customers/hello/notes") end))
unfolding rest_call fill occurs replace_from get
moved = refl
