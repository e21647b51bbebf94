-- ===== src/Gateway/Canonical/Agreement.antt =====
-- When the gate refuses a request, and what it passes on.
use mathlib.Core.List.{List, [], ◌∷◌, ◌++◌}
use enterprise_mcp_service_b.Base.{
  String, ◌≡◌, ◌≢◌, ◌↔◌, refl, sym, ap, ◌∙◌, ◌⊎◌, inl, inr, true, false, ◌&&◌, Option, none, some,
  some_inj, ne_str, ◌==◌, eq_iff, arith, Option-cases, Bool-cases, All,
}
use enterprise_mcp_service_b.Json.{Fields, null, bool, int, float, str, arr, obj, Runtime}
use enterprise_mcp_service_b.Gateway.Canonical.{
  Inbound, Loaded, json_decode_error, unicode_decode_error, value, Check, mismatch, text_field,
  body_name, check_name, name_mismatch, method_mismatch, check_method, check_fields, check_loaded,
  absent, find_header_body_mismatch, Message, buffer,
}

module _ (rt : Runtime) (inbound : Inbound) (loads : String → Loaded) where
  abbrev NameDiffers : Option String → Fields → String → Type 0
  NameDiffers name_header fs m =
      (h : String) × (key : String) × (n : String) × (name_header ≡ some h)
      × (inbound.name_bearing_methods m ≡ some key)
      × (body_name rt inbound loads fs key ≡ some n)
      × (h ≢ n)

  abbrev MethodDiffers : Option String → String → Type 0
  MethodDiffers method_header m = (h : String) × (method_header ≡ some h) × (h ≢ m)

  -- A header that is there differs from the value that the body has in its place. The name is looked
  -- for only where the methods do not differ.
  abbrev pub Disagree : String → (method_header name_header : Option String) → Type 0
  Disagree body method_header name_header =
      (fs : Fields) × (m : String) × (body ≢ "")
      × (loads body ≡ value (obj fs))
      × (text_field rt inbound loads fs "method" ≡ some m)
      × (MethodDiffers method_header m
          ⊎ ((¬ MethodDiffers method_header m) × NameDiffers name_header fs m))

  abbrev Refuses : Check → Type 0
  Refuses c = (detail : String) × (c ≡ mismatch detail)

  name_iff :
      (nh : Option String) (fs : Fields) (m : String)
      → Refuses (check_name rt inbound loads nh fs m) ↔ NameDiffers nh fs m
  name_iff none fs m =
      (λ (d, e). absurd (ground (arith, e)), λ (h, k, n, e, f, g, ne). absurd (ground (arith, e)))
  name_iff (some h) fs m = (
    λ (d, e). elim (Option-cases (inbound.name_bearing_methods m)) [
      | inl f ↦ absurd (ground (arith, e, f))
      | inr (k, f) ↦ elim (Option-cases (body_name rt inbound loads fs k)) [
        | inl g ↦ absurd (ground (arith, e, f, g))
        | inr (n, g) ↦
            (h, k, n, refl, f, g, λ same. absurd (ground (arith, e, f, g, (eq_iff h n).1 same)))
      ]
    ],
    λ (h', k, n, e, f, g, ne).
        (name_mismatch rt inbound loads h k n, ground (arith, some_inj e, f, g, ne, eq_iff h n)),
  )

  method_iff :
      (mh nh : Option String) (fs : Fields) (m : String)
      → Refuses (check_method rt inbound loads mh nh fs m)
        ↔ (MethodDiffers mh m ⊎ ((¬ MethodDiffers mh m) × NameDiffers nh fs m))
  method_iff none nh fs m = (
    λ r. inr (λ (h, e, f). absurd (ground (arith, e)), (name_iff nh fs m).0 r),
    λ x. elim x [
      | inl (h, e, f) ↦ absurd (ground (arith, e))
      | inr (x, d) ↦ (name_iff nh fs m).1 d
    ],
  )
  method_iff (some h) nh fs m = elim (Bool-cases (h == m)) [
    | inl e ↦
        let agree : ¬ MethodDiffers (some h) m =
          λ (h', f, ne). ne (sym (some_inj f) ∙ (eq_iff h m).0 e) in
        (
          λ r. inr (agree, (name_iff nh fs m).0 (rw e at r)),
          λ x. elim x [ inl d ↦ absurd (agree d) | inr (y, d) ↦ rw e ((name_iff nh fs m).1 d) ],
        )
    | inr e ↦
        let differ : MethodDiffers (some h) m =
          (h, refl, λ same. absurd (ground (arith, e, (eq_iff h m).1 same))) in
        (λ r. inl differ, λ x. (method_mismatch rt inbound loads h m, rw e refl))
  ]

  abbrev Differs : (mh nh : Option String) → Loaded → Type 0
  Differs mh nh l =
      (fs : Fields) × (m : String) × (l ≡ value (obj fs))
      × (text_field rt inbound loads fs "method" ≡ some m)
      × (MethodDiffers mh m ⊎ ((¬ MethodDiffers mh m) × NameDiffers nh fs m))

  loaded-Refuses :
      (mh nh : Option String) (l : Loaded)
      → Refuses (check_loaded rt inbound loads mh nh l)
      → Differs mh nh l
  loaded-Refuses mh nh json_decode_error (d, e) = absurd (ground (arith, e))
  loaded-Refuses mh nh unicode_decode_error (d, e) = absurd (ground (arith, e))
  loaded-Refuses mh nh (value (obj fs)) (d, e) =
      elim (Option-cases (text_field rt inbound loads fs "method")) [
        | inl f ↦ absurd (ground (arith, e, f))
        | inr (m, f) ↦ (fs, m, refl, f, (method_iff mh nh fs m).0 (d, rw (f, check_fields) at e))
      ]
  loaded-Refuses mh nh (value null) (d, e) = absurd (ground (arith, e))
  loaded-Refuses mh nh (value (bool b)) (d, e) = absurd (ground (arith, e))
  loaded-Refuses mh nh (value (int n)) (d, e) = absurd (ground (arith, e))
  loaded-Refuses mh nh (value (float t)) (d, e) = absurd (ground (arith, e))
  loaded-Refuses mh nh (value (str t)) (d, e) = absurd (ground (arith, e))
  loaded-Refuses mh nh (value (arr xs)) (d, e) = absurd (ground (arith, e))

  Refuses-loaded :
      (mh nh : Option String) (l : Loaded)
      → Differs mh nh l
      → Refuses (check_loaded rt inbound loads mh nh l)
  Refuses-loaded mh nh l (fs, m, e, f, x) =
      rw e (rw (f, check_fields) ((method_iff mh nh fs m).1 x))

  some_header :
      (mh nh : Option String) (l : Loaded)
      → Differs mh nh l
      → (absent rt inbound loads mh && absent rt inbound loads nh) ≡ false
  some_header (some h) nh l x = refl
  some_header none (some h) l x = refl
  some_header none none l (fs, m, e, f, inl (h, g, ne)) = absurd (ground (arith, g))
  some_header none none l (fs, m, e, f, inr (x, (h, k, n, g, r, q, ne))) =
      absurd (ground (arith, g))

  -- The check refuses a request exactly where a header disagrees with the body, a JSON object with a
  -- method, that it mirrors.
  pub mismatch_iff :
      (body : String) (method_header name_header : Option String)
      → ((detail : String) × (find_header_body_mismatch rt inbound loads body method_header
              name_header
            ≡ mismatch detail))
        ↔ Disagree body method_header name_header
  unfolding find_header_body_mismatch
  mismatch_iff body mh nh = (
    λ (d, e). elim (Bool-cases (absent rt inbound loads mh && absent rt inbound loads nh)) [
      | inl a ↦ absurd (ground (arith, rw a at e))
      | inr a ↦ elim (Bool-cases (body == "")) [
        | inl b ↦ absurd (ground (arith, rw b at (rw a at e)))
        | inr b ↦
            let (fs, m, l, t, x) = loaded-Refuses mh nh (loads body) (d, rw b at (rw a at e)) in
            (fs, m, λ same. absurd (ground (arith, b, (eq_iff body "").1 same)), l, t, x)
      ]
    ],
    λ (fs, m, nonempty, l, t, x).
        let d : Differs mh nh (loads body) = (fs, m, l, t, x) in
        rw (some_header mh nh (loads body) d)
          (rw (ne_str body "" nonempty) (Refuses-loaded mh nh (loads body) d)),
  )

-- What is buffered comes first in the stream, and ends with its first message without `more_body`.
abbrev pub Cut : List Message → List Message → Type 0
Cut ms buffered =
    (front : List Message) × (final : Message) × (rest : List Message) × (buffered
      ≡ front ++ final ∷ [])
    × (ms ≡ front ++ final ∷ rest)
    × (final.more_body ≡ false)
    × All (λ m. m.more_body ≡ true) front

pub buffer_lem :
    (ms buffered : List Message) (body : String)
    → buffer ms ≡ some (buffered, body)
    → Cut ms buffered
unfolding buffer
buffer_lem [] buffered body e = cc
buffer_lem (m ∷ ms) buffered body e = elim (Bool-cases m.more_body) [
  | inr last ↦
      let same = ap (λ b. b.0) (some_inj (rw (last, buffer) at e)) in
      ([], m, ms, sym same, refl, last, tt)
  | inl more ↦ elim (Option-cases (buffer ms)) [
    | inl f ↦ absurd (ground (arith, rw (more, buffer) at e, f))
    | inr ((b, c), f) ↦
        let same = ap (λ b. b.0) (some_inj (rw f at (rw (more, buffer) at e))) in
        let (front, final, rest, p, q, l, all) = buffer_lem ms b c f in
        (m ∷ front, final, rest, sym same ∙ ap (λ b. m ∷ b) p, ap (λ b. m ∷ b) q, l, (more, all))
  ]
]
