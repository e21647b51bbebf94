-- ===== src/Fabric/Rest/Arguments.antt =====
-- Where the arguments of a call to a REST backend go.
use mathlib.Mathlib.Data.Bool.Basic.{or-eq-false-eq-eq-false-and-eq-false}
use text.Mathlib.Text.{starts_with}
use enterprise_mcp_service_b.Base.{
  String, false, Bool-cases, ◌≡◌, refl, sym, ap, subst, ◌⊎◌, inl, inr, Option, none, some,
  Option-cases, List, [], ◌∷◌, ◌++◌, Result, err, get, ◌==◌, eq_iff, if◌then◌else◌, arith,
}
use enterprise_mcp_service_b.Json.{Json, Fields, field, end, get_field, Runtime}
use enterprise_mcp_service_b.Fabric.Rest.{
  RestOperation, RestBackendConfig, RestRequest, RestReply, RestError, unknown_operation, occurs,
  replace_from, replace, placeholder, reads, fields_or_none, authorization_of, fill, request_for,
  rest_answer, rest_call,
}

-- No key stands twice, as in every `dict`.
abbrev pub IsDistinct : Fields → Type 0
IsDistinct end = Unit
IsDistinct (field key value rest) = (get_field rest key ≡ none) × IsDistinct rest

-- The arguments that come before a key
unfoldable pub before : Fields → String → Fields
before end key = end
before (field k value rest) key =
    let others = before rest key in if k == key then end else field k value others

absent-replace : (old new text : String) → occurs old text ≡ false → replace text old new ≡ text
unfolding occurs replace_from
absent-replace old new String.[] h = refl
absent-replace old new (String.◌∷◌ c text) h =
    let (first, later) =
      (or-eq-false-eq-eq-false-and-eq-false (starts_with (String.◌∷◌ c text) old)
          (occurs old text)).0
        h in
    rw first (ap (λ t. String.◌∷◌ c t) (absent-replace old new text later))

module _ (rt : Runtime) where
  -- The template with the placeholder of each argument in turn replaced by the argument's text
  unfoldable pub replace_each : String → Fields → String
  replace_each path end = path
  replace_each path (field key value rest) =
      replace_each (replace path (placeholder key) (rt.str_of value)) rest

  path-fill : (path : String) (fs : Fields) → (fill rt path fs).0 ≡ replace_each path fs
  unfolding fill replace_each
  path-fill path end = refl
  path-fill path (field k value rest) = elim (Bool-cases (occurs (placeholder k) path)) [
    | inl h ↦ rw h (path-fill (replace path (placeholder k) (rt.str_of value)) rest)
    | inr h ↦
        rw h (rw (absent-replace (placeholder k) (rt.str_of value) path h) (path-fill path rest))
  ]

  fill-none :
      (path : String) (fs : Fields) (key : String)
      → get_field fs key ≡ none
      → get_field (fill rt path fs).1 key ≡ none
  unfolding fill get_field
  fill-none path end key h = refl
  fill-none path (field k value rest) key h =
      let filled = replace path (placeholder k) (rt.str_of value) in
      ground (arith, h, eq_iff k key, fill-none path rest key, fill-none filled rest key)

  -- What `fill` leaves of an argument
  abbrev Left : String → Fields → String → Type 0
  Left path fs key = get_field (fill rt path fs).1 key ≡ (
      if occurs (placeholder key) (fill rt path (before fs key)).0 then none else get_field fs key)

  Left-here :
      (path key : String) (value : Json) (rest : Fields)
      → get_field rest key ≡ none
      → Left path (field key value rest) key
  unfolding get_field before fill
  Left-here path key value rest absent =
      let filled = replace path (placeholder key) (rt.str_of value) in
      ground
        (arith, eq_iff key key, fill-none path rest key absent, fill-none filled rest key absent)

  Left-there :
      (path k key : String) (value : Json) (rest : Fields)
      → (k == key) ≡ false
      → Left path rest key
      → Left (replace path (placeholder k) (rt.str_of value)) rest key
      → Left path (field k value rest) key
  unfolding get_field before fill
  Left-there path k key value rest e kept placed = elim (Bool-cases (occurs (placeholder k) path)) [
    | inl h ↦ rw e (rw h placed)
    | inr h ↦ rw e (rw h (rw e kept))
  ]

  get_field-fill : (path : String) (fs : Fields) (key : String) → IsDistinct fs → Left path fs key
  unfolding fill get_field before
  get_field-fill path end key h = ground arith
  get_field-fill path (field k value rest) key (absent, h) =
      let filled = replace path (placeholder k) (rt.str_of value) in
      elim (Bool-cases (k == key)) [
        | inl e ↦
            subst (Left path (field k value rest)) ((eq_iff k key).0 e)
              (Left-here path k value rest absent)
        | inr e ↦
            Left-there path k key value rest e (get_field-fill path rest key h)
              (get_field-fill filled rest key h)
      ]

  -- What a request carries for a call's arguments: in the query of a GET or a DELETE, else in the body.
  abbrev Carries : RestRequest → RestOperation → Fields → Type 0
  Carries q operation rest =
      (q.params ≡ (if reads operation.method then fields_or_none rest else none))
      × (q.json ≡ (if reads operation.method then none else some rest))

  -- What is left of the arguments for a template: those whose placeholder was not in the path at their
  -- turn
  abbrev Leaves : String → Fields → Fields → Type 0
  Leaves template arguments rest =
      (key : String)
      → get_field rest key ≡ (
          if occurs (placeholder key) (replace_each template (before arguments key))
          then none
          else get_field arguments key)

  module _ (client : RestRequest → RestReply) (operation : RestOperation) (arguments : Fields)
      (token : Option String) (sent : List RestRequest) where
    -- The outcome of a call that sends one request for the operation
    abbrev pub Sends : Result RestError Json × List RestRequest → Type 0
    Sends outcome =
        (q : RestRequest) × (rest : Fields) × (outcome
          ≡ (rest_answer rt (client q), sent ++ q ∷ []))
        × (q.method ≡ operation.method)
        × (q.authorization ≡ authorization_of token)
        × (q.path ≡ replace_each operation.path arguments)
        × Carries q operation rest
        × Leaves operation.path arguments rest

  -- A call of a capability without an operation raises and sends nothing. Any other call, with each
  -- argument given once, sends exactly one request, with the operation's method, the caller's token,
  -- and the template's path with the placeholder of each argument in turn replaced by its text; the
  -- request carries exactly those arguments whose placeholder was not in the path at their turn. The
  -- answer is what the reply to that request gives.
  pub rest_call_lem :
      (config : RestBackendConfig) (client : RestRequest → RestReply) (capability : String)
      (arguments : Fields) (token : Option String) (sent : List RestRequest)
      → IsDistinct arguments
      → ((get config.operations capability ≡ none)
          × (rest_call rt config client capability arguments token sent
              ≡ (err (unknown_operation config.backend capability), sent)))
        ⊎ ((operation : RestOperation) × (get config.operations capability ≡ some operation)
            × Sends client operation arguments token sent
                (rest_call rt config client capability arguments token sent))
  unfolding rest_call
  rest_call_lem config client capability arguments token sent distinct =
      elim (Option-cases (get config.operations capability)) [
        | inl e ↦ inl (e, rw e refl)
        | inr (operation, e) ↦
            let filled = fill rt operation.path arguments in
            inr (
              operation,
              e,
              (
                request_for rt operation token filled,
                filled.1,
                rw e refl,
                refl,
                refl,
                path-fill operation.path arguments,
                (refl, refl),
                λ key.
                    rw (sym (path-fill operation.path (before arguments key)))
                      (get_field-fill operation.path arguments key distinct),
              ),
            )
      ]
