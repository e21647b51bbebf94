-- ===== src/Domains/Finance.antt =====
-- RI/services/example_mcp_servers/finance_domain/server.py: the tools of the finance backend.
pub mod Payments
use enterprise_mcp_service_b.Base.{
  ℕ, ◌+◌, String, Option, none, some, List, [], ◌∷◌, Dict, get, put, ◌<>◌,
}
use enterprise_mcp_service_b.Json.{Json, Fields, str, int, pos, field, end, put_field}
use enterprise_mcp_service_b.Domains.{not_found, found_or}

abbrev invoice : String → String → ℕ → String → Fields
invoice invoice_id customer_id amount status = field "invoice_id" (str invoice_id) (
    field "customer_id" (str customer_id)
      (field "amount" (int (pos amount)) (field "status" (str status) end)))

-- `_INVOICES`
abbrev invoices : Dict Fields
invoices =
    ("inv-001", invoice "inv-001" "cust-001" 5000 "open")
    ∷ ("inv-002", invoice "inv-002" "cust-002" 25000 "overdue")
    ∷ []

unfoldable pub invoice_get : String → Fields
invoice_get invoice_id = found_or "invoice_id" invoice_id (get invoices invoice_id)

-- `_PAYMENTS`, and the number that `_payment_ids` gives next; it starts at 1.
pub record FinanceServer : Type 0 where
  pub payments : Dict Fields
  pub next_payment : ℕ

abbrev pub fresh_server : FinanceServer
fresh_server = record { payments = []; next_payment = 1 }

module _ (three_digits : ℕ → String) where
  abbrev pub payment_id_of : ℕ → String
  payment_id_of n = "pay-" <> three_digits n

  abbrev pub payment_document : ℕ → String → Json → Fields
  payment_document n invoice_id amount = field "payment_id" (str (payment_id_of n)) (
      field "invoice_id" (str invoice_id)
        (field "amount" amount (field "status" (str "draft") end)))

  -- `payment_create`; the amount is a JSON number.
  unfoldable pub payment_create : String → Json → FinanceServer → Fields × FinanceServer
  payment_create invoice_id amount s =
      let payment = payment_document s.next_payment invoice_id amount in
      (
        payment,
        record {
          payments = put s.payments (payment_id_of s.next_payment) payment;
          next_payment = s.next_payment + 1;
        },
      )

abbrev pub executed : Json → Fields → Fields
executed amount payment =
    put_field (put_field payment "status" (str "executed")) "executed_amount" amount

abbrev pub execute_found : String → Json → Option Fields → FinanceServer → Fields × FinanceServer
execute_found payment_id amount none s = (not_found "payment_id" payment_id, s)
execute_found payment_id amount (some payment) s = (
  executed amount payment,
  record s { payments = put s.payments payment_id (executed amount payment) },
)

unfoldable pub payment_execute : String → Json → FinanceServer → Fields × FinanceServer
unfolding put_field
payment_execute payment_id amount s = execute_found payment_id amount (get s.payments payment_id) s
