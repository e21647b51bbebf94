-- ===== src/Approval/Consume.antt =====
-- What one `check_and_consume` does, on both branches.
use enterprise_mcp_service_b.Base.{
  some_inj, ℕ, String, ◌≡◌, refl, sym, ap, ◌∙◌, true, false, Option, none, some, [], ◌∷◌, Dict, get,
  IsKeyed, ◌==◌, eq_iff, eq_refl, ne_str, arith, if◌then◌else◌, ◌⊎◌, inl, inr, Bool-cases,
}
use enterprise_mcp_service_b.Json.{Runtime}
use enterprise_mcp_service_b.Approval.{
  Operation, ApprovalRequest, ApprovalService, consumed, hash_of, matches_granted, with_status,
  consume_first, check_and_consume,
}

abbrev id_of : ApprovalRequest → String
id_of a = a.approval_id

-- One stored approval matched, it alone changed, and it is now consumed.
abbrev pub Spent : String → ℕ → Dict ApprovalRequest → Dict ApprovalRequest → Type 0
Spent h now d d' =
    (key : String) × (a : ApprovalRequest) × (get d key ≡ some a)
    × (matches_granted h now a ≡ true)
    × ((j : String) → get d' j ≡ (if key == j then some (with_status consumed a) else get d j))

abbrev pub NoMatch : String → ℕ → Dict ApprovalRequest → Type 0
NoMatch h now d =
    (key : String) (a : ApprovalRequest) → get d key ≡ some a → matches_granted h now a ≡ false

clash : {a : ApprovalRequest} → ◌≡◌ {A = Option ApprovalRequest} none (some a) → ⊥
clash e = cc

consume_first_lem :
    (h : String) (now : ℕ) (d : Dict ApprovalRequest)
    → IsKeyed id_of d
    → (((consume_first h now d).0 ≡ true) × Spent h now d (consume_first h now d).1)
      ⊎ ((consume_first h now d ≡ (false, d)) × NoMatch h now d)
unfolding consume_first get
consume_first_lem h now [] k = inr (refl, λ key a e. cc)
consume_first_lem h now ((i, b) ∷ d) k =
    go (Bool-cases (matches_granted h now b)) (consume_first_lem h now d k.2)
  where
    go :
        (matches_granted h now b ≡ true) ⊎ (matches_granted h now b ≡ false)
        → (((consume_first h now d).0 ≡ true) × Spent h now d (consume_first h now d).1)
          ⊎ ((consume_first h now d ≡ (false, d)) × NoMatch h now d)
        → (((consume_first h now ((i, b) ∷ d)).0 ≡ true)
            × Spent h now ((i, b) ∷ d) (consume_first h now ((i, b) ∷ d)).1)
          ⊎ ((consume_first h now ((i, b) ∷ d) ≡ (false, (i, b) ∷ d)) × NoMatch h now ((i, b) ∷ d))
    go (inl m) ih = inl (rw m, (i, b, rw (eq_refl i), m, λ j. rw m (ground arith)))
    go (inr m) (inl (f, (key, a, at, hit, rest))) =
        let apart : (i == key) ≡ false =
          ne_str i key (λ e. absurd (clash (sym k.1 ∙ ap (get d) e ∙ at))) in
        inl (
          rw m f,
          (
            key,
            a,
            rw apart at,
            hit,
            λ j. rw m (ground (arith, rest j, eq_iff i j, eq_iff key j, eq_iff i key, apart)),
          ),
        )
    go (inr m) (inr (same, nothing)) = inr (
      rw m (rw same),
      λ key a e. elim (Bool-cases (i == key)) [
        | inl q ↦ ap (matches_granted h now) (sym (first key a q e)) ∙ m
        | inr q ↦ nothing key a (rw q at e)
      ],
    )
      where
        first :
            (key : String) (a : ApprovalRequest)
            → (i == key) ≡ true
            → get ((i, b) ∷ d) key ≡ some a
            → b ≡ a
        first key a q e =
            let e' : ◌≡◌ {A = Option ApprovalRequest} (some b) (some a) = rw q at e in some_inj e'

-- An attempt is approved exactly when some stored approval for the operation's hash is granted and
-- not expired. Then one such approval becomes consumed, and no other request changes; else the
-- service is unchanged.
pub check_and_consume_lem :
    (rt : Runtime) (op : Operation) (now : ℕ) (svc : ApprovalService)
    → IsKeyed (λ a. a.approval_id) svc.requests
    → (((check_and_consume rt op now svc).0 ≡ true)
        × Spent (hash_of rt op) now svc.requests (check_and_consume rt op now svc).1.requests)
      ⊎ ((check_and_consume rt op now svc ≡ (false, svc))
          × NoMatch (hash_of rt op) now svc.requests)
unfolding check_and_consume
check_and_consume_lem rt op now svc k =
    elim (consume_first_lem (hash_of rt op) now svc.requests k) [
      | inl h ↦ inl h
      | inr h ↦ inr (rw (h.0), h.1)
    ]
