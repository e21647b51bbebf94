-- ===== src/Domains/Finance/Payments.antt =====
-- What becomes of a payment, over any sequence of calls of the backend's tools.
use text.Mathlib.TextLemmas.{append_cancel_left}
use enterprise_mcp_service_b.Base.{
  ℕ, ◌<◌, String, ◌≡◌, ◌≢◌, refl, subst, Bool, true, false, ◌||◌, Bool-cases, Option, none, some,
  inl, inr, List, [], ◌∷◌, any, get, get-put, ◌==◌, eq_iff, eq_refl, ne_str, if◌then◌else◌, arith,
}
use enterprise_mcp_service_b.Json.{Json, Fields, str, get_field, put_field, get-put_field}
use enterprise_mcp_service_b.Domains.{Injective}
use enterprise_mcp_service_b.Domains.Finance.{
  FinanceServer, payment_id_of, payment_document, payment_create, executed, execute_found,
  payment_execute,
}

-- A call of one of the two tools that write.
pub data Call : Type 0 where
  creates : String → Json → Call
  executes : String → Json → Call

-- Whether the call executes the payment with this id.
abbrev pub is_execution_of : String → Call → Bool
is_execution_of id (creates invoice_id amount) = false
is_execution_of id (executes payment_id amount) = payment_id == id

module _ (three_digits : ℕ → String) where
  unfoldable pub perform : Call → FinanceServer → FinanceServer
  perform (creates invoice_id amount) s = (payment_create three_digits invoice_id amount s).1
  perform (executes payment_id amount) s = (payment_execute payment_id amount s).1

  unfoldable pub perform_all : List Call → FinanceServer → FinanceServer
  perform_all [] s = s
  perform_all (c ∷ cs) s = perform_all cs (perform c s)

  -- The payment with this id is held, for the invoice and with the status.
  abbrev pub IsHeld : String → String → String → FinanceServer → Type 0
  IsHeld id invoice_id status s =
      (document : Fields) × (get s.payments id ≡ some document)
      × (get_field document "invoice_id" ≡ some (str invoice_id))
      × (get_field document "status" ≡ some (str status))

  abbrev pub status_after : Bool → String → String
  status_after done status = if done then "executed" else status

  module _ (inj : Injective three_digits) where
    ids_differ : (n m : ℕ) → n < m → payment_id_of three_digits m ≢ payment_id_of three_digits n
    ids_differ n m h e =
        let same = inj m n (append_cancel_left "pay-" (three_digits m) (three_digits n) e) in
        absurd (omega arith)

    -- What one call does to a payment that is held.
    abbrev Step : ℕ → String → String → Call → FinanceServer → Type 0
    Step n invoice_id status c s =
        (n < (perform c s).next_payment)
        × IsHeld (payment_id_of three_digits n) invoice_id
            (status_after (is_execution_of (payment_id_of three_digits n) c) status) (perform c s)

    create-Step :
        (n : ℕ) (invoice_id status other : String) (amount : Json) (s : FinanceServer)
        → n < s.next_payment
        → IsHeld (payment_id_of three_digits n) invoice_id status s
        → Step n invoice_id status (creates other amount) s
    unfolding perform payment_create
    create-Step n invoice_id status other amount s below (document, at, f, g) = (
      omega arith,
      (
        document,
        ground (
          arith,
          at,
          get-put s.payments (payment_id_of three_digits s.next_payment)
              (payment_id_of three_digits n)
              (payment_document three_digits s.next_payment other amount),
          ne_str (payment_id_of three_digits s.next_payment) (payment_id_of three_digits n)
              (ids_differ n s.next_payment below),
        ),
        f,
        g,
      ),
    )

    execute_found_lem :
        (n : ℕ) (invoice_id status payment_id : String) (amount : Json) (o : Option Fields)
        (s : FinanceServer)
        → get s.payments payment_id ≡ o
        → n < s.next_payment
        → IsHeld (payment_id_of three_digits n) invoice_id status s
        → (n < (execute_found payment_id amount o s).1.next_payment)
          × IsHeld
              (payment_id_of three_digits n)
              invoice_id
              (status_after (payment_id == payment_id_of three_digits n) status)
              (execute_found payment_id amount o s).1
    execute_found_lem n invoice_id status payment_id amount none s e below (document, at, f, g) =
        let other : (payment_id == payment_id_of three_digits n) ≡ false =
          ground (arith, e, at, eq_iff payment_id (payment_id_of three_digits n)) in
        (below, (document, at, f, rw other g))
    execute_found_lem n invoice_id status payment_id amount (some found) s e below
          (document, at, f, g) =
        elim (Bool-cases (payment_id == payment_id_of three_digits n)) [
          | inl q ↦
              let same : document ≡ found =
                ground (arith, e, at, (eq_iff payment_id (payment_id_of three_digits n)).0 q) in
              let d = executed amount found in
              (
                below,
                (
                  d,
                  ground (arith, q, get-put s.payments payment_id (payment_id_of three_digits n) d),
                  ground (
                    arith,
                    f,
                    same,
                    get-put_field (put_field found "status" (str "executed")) "executed_amount"
                        "invoice_id" amount,
                    get-put_field found "status" "invoice_id" (str "executed"),
                  ),
                  ground (
                    arith,
                    q,
                    get-put_field (put_field found "status" (str "executed")) "executed_amount"
                        "status" amount,
                    get-put_field found "status" "status" (str "executed"),
                  ),
                ),
              )
          | inr q ↦ (
            below,
            (
              document,
              ground (
                arith,
                q,
                at,
                get-put s.payments payment_id (payment_id_of three_digits n)
                    (executed amount found),
              ),
              f,
              rw q g,
            ),
          )
        ]

    perform-Step :
        (n : ℕ) (invoice_id status : String) (c : Call) (s : FinanceServer)
        → n < s.next_payment
        → IsHeld (payment_id_of three_digits n) invoice_id status s
        → Step n invoice_id status c s
    unfolding perform payment_execute
    perform-Step n invoice_id status (creates other amount) s below held =
        create-Step n invoice_id status other amount s below held
    perform-Step n invoice_id status (executes payment_id amount) s below held =
        execute_found_lem n invoice_id status payment_id amount (get s.payments payment_id) s refl
          below held

    stays :
        (n : ℕ) (invoice_id status : String) (cs : List Call) (s : FinanceServer)
        → n < s.next_payment
        → IsHeld (payment_id_of three_digits n) invoice_id status s
        → IsHeld
            (payment_id_of three_digits n)
            invoice_id
            (status_after (any (is_execution_of (payment_id_of three_digits n)) cs) status)
            (perform_all cs s)
    unfolding perform_all
    stays n invoice_id status [] s below held = held
    stays n invoice_id status (c ∷ cs) s below held =
        let id = payment_id_of three_digits n in
        let (below', held') = perform-Step n invoice_id status c s below held in
        let later =
          stays n invoice_id (status_after (is_execution_of id c) status) cs (perform c s) below'
            held' in
        subst (λ x. IsHeld id invoice_id x (perform_all cs (perform c s)))
          (either (is_execution_of id c) (any (is_execution_of id) cs)) later
      where
        either :
            (a b : Bool) → status_after b (status_after a status) ≡ status_after (a || b) status
        either true true = refl
        either true false = refl
        either false true = refl
        either false false = refl

    -- A created payment is never lost and never taken for another: after any further calls of the
    -- tools, whoever makes them, it is held under the id that its creation answered, for its invoice,
    -- and its status is `executed` exactly when one of those calls executed that id, and else `draft`.
    -- Different numbers have different texts.
    pub payment_lem :
        (invoice_id : String) (amount : Json) (later : List Call) (s : FinanceServer)
        → (id : String) × (get_field
              (payment_create three_digits invoice_id amount s).0
              "payment_id"
            ≡ some (str id))
          × IsHeld id invoice_id
              (if any (is_execution_of id) later then "executed" else "draft")
              (perform_all later (payment_create three_digits invoice_id amount s).1)
    unfolding payment_create get_field
    payment_lem invoice_id amount later s =
        let id = payment_id_of three_digits s.next_payment in
        let document = payment_document three_digits s.next_payment invoice_id amount in
        (
          id,
          refl,
          stays s.next_payment invoice_id "draft" later _ (omega arith)
              (document, ground (arith, get-put s.payments id id document, eq_refl id), refl, refl),
        )
