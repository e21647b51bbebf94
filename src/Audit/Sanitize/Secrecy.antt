-- ===== src/Audit/Sanitize/Secrecy.antt =====
-- What `_sanitize` hides, at every depth of a payload.
use enterprise_mcp_service_b.Base.{String, ◌≡◌, refl, ap, true, false, ◌<>◌, if◌then◌else◌}
use enterprise_mcp_service_b.Json.{
  Json, Items, Fields, str, arr, obj, nil, cons, end, field, Runtime,
}
use enterprise_mcp_service_b.Audit.Sanitize.{
  is_sensitive, sanitize, sanitize_items, sanitize_fields, EventEnvelope, model_post_init,
}

module _ (rt : Runtime) where
  -- Two values that differ only below sensitive keys, where their texts have one hash.
  mutual
    pub data Masked : Json → Json → Type 0 where
      same : (a : Json) → Masked a a
      arrays : {xs ys : Items} → MaskedItems xs ys → Masked (arr xs) (arr ys)
      objects : {fs gs : Fields} → MaskedFields fs gs → Masked (obj fs) (obj gs)

    pub data MaskedItems : Items → Items → Type 0 where
      no_items : MaskedItems nil nil
      items :
          {a b : Json} {xs ys : Items}
          → Masked a b
          → MaskedItems xs ys
          → MaskedItems (cons a xs) (cons b ys)

    pub data MaskedFields : Fields → Fields → Type 0 where
      no_fields : MaskedFields end end
      open_field :
          {a b : Json} {fs gs : Fields} (key : String)
          → is_sensitive key ≡ false
          → Masked a b
          → MaskedFields fs gs
          → MaskedFields (field key a fs) (field key b gs)
      same_field :
          {fs gs : Fields} (key : String) (a : Json)
          → MaskedFields fs gs
          → MaskedFields (field key a fs) (field key a gs)
      secret_field :
          {fs gs : Fields} (key : String) (a b : Json)
          → is_sensitive key ≡ true
          → rt.sha256 (rt.str_of a) ≡ rt.sha256 (rt.str_of b)
          → MaskedFields fs gs
          → MaskedFields (field key a fs) (field key b gs)

  field_of_parts :
      (key : String) {a b : Json} {fs gs : Fields}
      → a ≡ b
      → fs ≡ gs
      → field key a fs ≡ field key b gs
  field_of_parts key p q = cc

  sealed :
      (key : String) (a b : Json)
      → is_sensitive key ≡ true
      → rt.sha256 (rt.str_of a) ≡ rt.sha256 (rt.str_of b)
      → ◌≡◌ {A = Json}
          (if is_sensitive key then str ("sha256:" <> rt.sha256 (rt.str_of a)) else sanitize rt a)
          (if is_sensitive key then str ("sha256:" <> rt.sha256 (rt.str_of b)) else sanitize rt b)
  sealed key a b s h = rw s (rw h)

  opened :
      (key : String) (x y : Json) {a b : Json}
      → is_sensitive key ≡ false
      → a ≡ b
      → ◌≡◌ {A = Json} (if is_sensitive key then x else a) (if is_sensitive key then y else b)
  opened key x y s h = rw s h

  mutual
    unfolding sanitize

    Masked-sanitize : {a b : Json} → Masked a b → sanitize rt a ≡ sanitize rt b
    Masked-sanitize (same a) = refl
    Masked-sanitize (arrays m) = ap arr (Masked-items m)
    Masked-sanitize (objects m) = ap obj (Masked-fields m)

    Masked-items : {xs ys : Items} → MaskedItems xs ys → sanitize_items rt xs ≡ sanitize_items rt ys
    Masked-items no_items = refl
    Masked-items (items m ms) = cc (Masked-sanitize m, Masked-items ms)

    Masked-fields :
        {fs gs : Fields} → MaskedFields fs gs → sanitize_fields rt fs ≡ sanitize_fields rt gs
    Masked-fields no_fields = refl
    Masked-fields (open_field key o m ms) =
        field_of_parts key (opened key _ _ o (Masked-sanitize m)) (Masked-fields ms)
    Masked-fields (same_field key a ms) = field_of_parts key refl (Masked-fields ms)
    Masked-fields (secret_field key a b s h ms) =
        field_of_parts key (sealed key a b s h) (Masked-fields ms)

-- Two events that differ only in payload values below sensitive keys, at any depth, where the values
-- have the same hash, are recorded alike: of such a value an event shows its hash and nothing else.
pub event_hides_secrets :
    (rt : Runtime) (event : EventEnvelope) (fs gs : Fields)
    → MaskedFields rt fs gs
    → model_post_init rt (record event { payload = fs })
      ≡ model_post_init rt (record event { payload = gs })
unfolding model_post_init
event_hides_secrets rt event fs gs m = ap (λ p. record event { payload = p }) (Masked-fields rt m)
