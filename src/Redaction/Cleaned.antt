-- ===== src/Redaction/Cleaned.antt =====
-- What is left of a payload after redaction.
use enterprise_mcp_service_b.Base.{
  String, ◌≡◌, refl, true, false, Bool-cases, inl, inr, ◌⊎◌, if◌then◌else◌,
}
use enterprise_mcp_service_b.Json.{
  Json, Items, Fields, null, bool, int, float, str, arr, obj, nil, cons, end, field,
}
use enterprise_mcp_service_b.Redaction.{
  Patterns, is_sensitive, redaction_mark, redact_text, redact_mapping, redact_value, redact_items,
  redact_item,
}

-- No list stands directly in a list.
abbrev mutual
  pub FlatFields : Fields → Type 0
  FlatFields end = Unit
  FlatFields (field key value rest) = FlatValue value × FlatFields rest

  pub FlatValue : Json → Type 0
  FlatValue (obj fs) = FlatFields fs
  FlatValue (arr xs) = FlatItems xs
  FlatValue (str t) = Unit
  FlatValue null = Unit
  FlatValue (bool b) = Unit
  FlatValue (int n) = Unit
  FlatValue (float t) = Unit

  pub FlatItems : Items → Type 0
  FlatItems nil = Unit
  FlatItems (cons x xs) = FlatItem x × FlatItems xs

  pub FlatItem : Json → Type 0
  FlatItem (obj fs) = FlatFields fs
  FlatItem (arr xs) = ⊥
  FlatItem (str t) = Unit
  FlatItem null = Unit
  FlatItem (bool b) = Unit
  FlatItem (int n) = Unit
  FlatItem (float t) = Unit

-- What redaction makes of a document: the same keys, in their order; the mark under every key that looks
-- sensitive; and elsewhere, at every depth, each text with the substitutions of the three patterns made
-- in it, and each number, boolean and null as it was.
module _ (p : Patterns) where
  abbrev mutual
    pub CleanFields : Fields → Fields → Type 0
    CleanFields end redacted = redacted ≡ end
    CleanFields (field key value rest) redacted =
        (v : Json) × (fs : Fields) × (redacted ≡ field key v fs)
        × (((is_sensitive key ≡ true) × (v ≡ str redaction_mark))
            ⊎ ((is_sensitive key ≡ false) × CleanValue value v))
        × CleanFields rest fs

    pub CleanValue : Json → Json → Type 0
    CleanValue (obj fs) v = (gs : Fields) × (v ≡ obj gs) × CleanFields fs gs
    CleanValue (arr xs) v = (ys : Items) × (v ≡ arr ys) × CleanItems xs ys
    CleanValue (str t) v = v ≡ str (p.sub_phone (p.sub_cpf (p.sub_email t)))
    CleanValue null v = v ≡ null
    CleanValue (bool b) v = v ≡ bool b
    CleanValue (int n) v = v ≡ int n
    CleanValue (float t) v = v ≡ float t

    pub CleanItems : Items → Items → Type 0
    CleanItems nil redacted = redacted ≡ nil
    CleanItems (cons x xs) redacted =
        (v : Json) × (ys : Items) × (redacted ≡ cons v ys) × CleanValue x v × CleanItems xs ys

  key_clean :
      (key : String) (value redacted : Json)
      → CleanValue value redacted
      → ((is_sensitive key ≡ true)
          × ((if is_sensitive key then str redaction_mark else redacted) ≡ str redaction_mark))
        ⊎ ((is_sensitive key ≡ false)
            × CleanValue value (if is_sensitive key then str redaction_mark else redacted))
  key_clean key value redacted h = elim (Bool-cases (is_sensitive key)) [
    | inl e ↦ inl (e, rw e refl)
    | inr e ↦ inr (e, rw e h)
  ]

  mutual
    unfolding redact_mapping redact_value redact_items redact_item redact_text

    fields_clean : (fs : Fields) → FlatFields fs → CleanFields fs (redact_mapping p fs)
    fields_clean end h = refl
    fields_clean (field key value rest) h = (
      _,
      _,
      refl,
      key_clean key value (redact_value p value) (value_clean value h.0),
      fields_clean rest h.1,
    )

    value_clean : (j : Json) → FlatValue j → CleanValue j (redact_value p j)
    value_clean (obj fs) h = (_, refl, fields_clean fs h)
    value_clean (arr xs) h = (_, refl, items_clean xs h)
    value_clean (str t) h = refl
    value_clean null h = refl
    value_clean (bool b) h = refl
    value_clean (int n) h = refl
    value_clean (float t) h = refl

    items_clean : (xs : Items) → FlatItems xs → CleanItems xs (redact_items p xs)
    items_clean nil h = refl
    items_clean (cons x xs) h = (_, _, refl, item_clean x h.0, items_clean xs h.1)

    item_clean : (j : Json) → FlatItem j → CleanValue j (redact_item p j)
    item_clean (obj fs) h = (_, refl, fields_clean fs h)
    item_clean (arr xs) h = absurd h
    item_clean (str t) h = refl
    item_clean null h = refl
    item_clean (bool b) h = refl
    item_clean (int n) h = refl
    item_clean (float t) h = refl

-- Where no list of the payload stands directly in a list, redaction reaches every depth: the result has
-- the same keys, in their order, with the mark under each key that looks sensitive; every other text
-- has the substitutions of the e-mail, CPF and phone patterns made in it, in this order; and numbers,
-- booleans and nulls under other keys are as they were.
pub redact_mapping-Clean :
    (p : Patterns) (payload : Fields)
    → FlatFields payload
    → CleanFields p payload (redact_mapping p payload)
redact_mapping-Clean p payload h = fields_clean p payload h

-- A list that stands in a list is left as it is, whatever it holds.
nested_list_kept :
    (p : Patterns) (key : String) (xs : Items)
    → is_sensitive key ≡ false
    → redact_mapping p (field key (arr (cons (arr xs) nil)) end)
      ≡ field key (arr (cons (arr xs) nil)) end
unfolding redact_mapping redact_value redact_items redact_item
nested_list_kept p key xs h = rw h refl
