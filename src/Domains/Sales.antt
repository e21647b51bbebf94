-- ===== src/Domains/Sales.antt =====
-- RI/services/example_mcp_servers/sales_domain/server.py: the tools of the sales backend.
use enterprise_mcp_service_b.Base.{
  ℕ, ◌+◌, String, Bool, Option, none, some, List, [], ◌∷◌, Dict, get, put, values, select, codes,
  lower, has_part, ◌<>◌,
}
use enterprise_mcp_service_b.Json.{
  Json, Items, Fields, str, int, pos, arr, obj, nil, cons, field, end, put_field,
}
use enterprise_mcp_service_b.Domains.{not_found, found_or}

-- A customer's document and its name
pub record Customer : Type 0 where
  pub customer_id : String
  pub name : String
  pub region : String

abbrev pub customer_document : Customer → Fields
customer_document c =
    field "customer_id" (str c.customer_id)
      (field "name" (str c.name) (field "region" (str c.region) end))

-- `_CUSTOMERS`, `_ORDERS` and `_INVENTORY`
abbrev customers : Dict Customer
customers =
    ("cust-001", record { customer_id = "cust-001"; name = "Aurora Ltda"; region = "BR-SP" })
    ∷ ("cust-002", record { customer_id = "cust-002"; name = "Boreal S.A."; region = "BR-RJ" })
    ∷ []

abbrev orders : Dict Fields
orders =
    (
      "ord-001",
      field "order_id" (str "ord-001")
          (field "customer_id" (str "cust-001") (field "status" (str "shipped") end)),
    )
    ∷ []

abbrev inventory : Dict ℕ
inventory = ("sku-100", 42) ∷ ("sku-200", 0) ∷ []

-- `_QUOTES`, and the number that `_quote_ids` gives next; it starts at 1.
pub record SalesServer : Type 0 where
  pub quotes : Dict Fields
  pub next_quote : ℕ

abbrev pub fresh_server : SalesServer
fresh_server = record { quotes = []; next_quote = 1 }

abbrev matches : String → Customer → Bool
matches query c = has_part (lower (codes query)) (lower (codes c.name))

abbrev documents : List Customer → Items
documents [] = nil
documents (c ∷ cs) = cons (obj (customer_document c)) (documents cs)

unfoldable pub customer_search : String → Fields
customer_search query =
    field "results" (arr (documents (select (matches query) (values customers)))) end

abbrev document_of : Option Customer → Option Fields
document_of none = none
document_of (some c) = some (customer_document c)

unfoldable pub customer_get : String → Fields
customer_get customer_id =
    found_or "customer_id" customer_id (document_of (get customers customer_id))

unfoldable pub order_get : String → Fields
order_get order_id = found_or "order_id" order_id (get orders order_id)

abbrev or_zero : Option ℕ → ℕ
or_zero none = 0
or_zero (some n) = n

unfoldable pub inventory_check : String → Fields
inventory_check sku =
    field "sku" (str sku) (field "available" (int (pos (or_zero (get inventory sku)))) end)

module _ (three_digits : ℕ → String) where
  abbrev pub quote_id_of : ℕ → String
  quote_id_of n = "quote-" <> three_digits n

  abbrev pub quote_document : ℕ → String → Json → String → Fields
  quote_document n customer_id amount region = field "quote_id" (str (quote_id_of n)) (
      field "customer_id" (str customer_id)
        (field "amount" amount (field "region" (str region) (field "status" (str "draft") end))))

  -- `quote_create`; the amount is a JSON number.
  unfoldable pub quote_create : String → Json → String → SalesServer → Fields × SalesServer
  quote_create customer_id amount region s =
      let quote = quote_document s.next_quote customer_id amount region in
      (
        quote,
        record {
          quotes = put s.quotes (quote_id_of s.next_quote) quote;
          next_quote = s.next_quote + 1;
        },
      )

-- `if amount is not None: quote["amount"] = amount`
abbrev pub reamounted : Option Json → Fields → Fields
reamounted none quote = quote
reamounted (some amount) quote = put_field quote "amount" amount

abbrev pub update_found : String → Option Json → Option Fields → SalesServer → Fields × SalesServer
update_found quote_id amount none s = (not_found "quote_id" quote_id, s)
update_found quote_id amount (some quote) s =
    (reamounted amount quote, record s { quotes = put s.quotes quote_id (reamounted amount quote) })

unfoldable pub quote_update : String → Option Json → SalesServer → Fields × SalesServer
unfolding put_field
quote_update quote_id amount s = update_found quote_id amount (get s.quotes quote_id) s
