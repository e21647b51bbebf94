-- ===== src/Approval/Roundtrip.antt =====
-- Request, grant, and the retry that is then approved.
use enterprise_mcp_service_b.Base.{
  ℕ, String, ◌≡◌, refl, ◌∙◌, subst, ◌<◌, eq_iff, eq_refl, Bool, true, some, some_inj, [], ◌∷◌, Dict,
  get, put, get-put, IsKeyed, IsKeyed-put, arith, inl, inr, Bool-cases, Option-cases,
}
use enterprise_mcp_service_b.Json.{Runtime}
use enterprise_mcp_service_b.Audit.Events.{Stamp, emit}
use enterprise_mcp_service_b.Approval.{
  Operation, ApprovalRequest, ApprovalService, granted, hash_of, matches_pending, matches_granted,
  pending_for_operation, new_request, request, grant, check_and_consume, with_status,
}
use enterprise_mcp_service_b.Approval.Consume.{check_and_consume_lem}
use enterprise_mcp_service_b.Approval.Pending.{request_existing, request_new}

-- A pending request that the search finds is stored under its id, for the operation.
found_pending :
    (h : String) (now : ℕ) (d : Dict ApprovalRequest) (a : ApprovalRequest)
    → IsKeyed (λ a. a.approval_id) d
    → pending_for_operation h now d ≡ some a
    → (get d a.approval_id ≡ some a) × (a.operation_hash ≡ h)
unfolding pending_for_operation get
found_pending h now [] a k e = cc
found_pending h now ((i, b) ∷ d) a k e = elim (Bool-cases (matches_pending h now b)) [
  | inl m ↦
      let same : b ≡ a = some_inj (rw m at e) in
      (
        rw (← same) (rw k.0 (rw (eq_refl i) refl)),
        subst (λ (a : ApprovalRequest). a.operation_hash ≡ h) same
            (ground (arith, m, eq_iff b.operation_hash h)),
      )
  | inr m ↦
      let (at, is) = found_pending h now d a k.2 (rw m at e) in
      (ground (arith, at, k.1, eq_iff i a.approval_id), is)
]

-- What a request answers is stored under its id, for the operation; and the ids stay those of the
-- keys.
requested :
    (rt : Runtime) (op : Operation) (reason : String) (ttl now : ℕ) (new_id : String)
    (svc : ApprovalService)
    → IsKeyed (λ a. a.approval_id) svc.requests
    → let r = request rt op reason ttl now new_id svc in
      (get r.1.requests r.0.approval_id ≡ some r.0)
      × (r.0.operation_hash ≡ hash_of rt op)
      × IsKeyed (λ a. a.approval_id) r.1.requests
requested rt op reason ttl now new_id svc k =
    elim (Option-cases (pending_for_operation (hash_of rt op) now svc.requests)) [
      | inl e ↦ rw (request_new rt op reason ttl now new_id svc e) (
        get-put svc.requests new_id new_id _ ∙ rw (eq_refl new_id) refl,
        refl,
        IsKeyed-put (λ (a : ApprovalRequest). a.approval_id) svc.requests new_id
            (new_request rt op reason ttl now new_id) k refl,
      )
      | inr (a, e) ↦
          let (at, is) = found_pending (hash_of rt op) now svc.requests a k e in
          rw (request_existing rt op reason ttl now new_id svc a e) (at, is, k)
    ]

grant_writes :
    (rt : Runtime) (stamp : Stamp) (works : Bool) (id : String) (svc : ApprovalService)
    (a : ApprovalRequest)
    → get svc.requests id ≡ some a
    → (grant rt stamp works id svc).1.requests ≡ put svc.requests id (with_status granted a)
unfolding grant emit
grant_writes rt stamp works id svc a e =
    rw (e, grant)
      (elim (Bool-cases svc.audited) [
        | inl q ↦ rw q (elim (Bool-cases works) [ inl v ↦ rw v refl | inr v ↦ rw v refl ])
        | inr q ↦ rw q refl
      ])

granted_matches :
    (rt : Runtime) (op : Operation) (later : ℕ) (a : ApprovalRequest)
    → a.operation_hash ≡ hash_of rt op
    → later < a.expires_at
    → matches_granted (hash_of rt op) later (with_status granted a) ≡ true
granted_matches rt op later a e lt = rw e (rw (eq_refl (hash_of rt op)) (ground arith))

-- An approval enables the retry: after a request for an operation and a grant of the id that it
-- answered, an attempt of the same operation before the request expires is approved. It is so even
-- where the audit sink fails on the grant. The ids of the stored requests are their keys.
pub grant_enables :
    (rt : Runtime) (op : Operation) (reason : String) (ttl now later : ℕ) (new_id : String)
    (stamp : Stamp) (works : Bool) (svc : ApprovalService)
    → IsKeyed (λ a. a.approval_id) svc.requests
    → later < (request rt op reason ttl now new_id svc).0.expires_at
    → let (asked, svc') = request rt op reason ttl now new_id svc in
      (check_and_consume rt op later (grant rt stamp works asked.approval_id svc').1).0 ≡ true
grant_enables rt op reason ttl now later new_id stamp works svc k lt =
    let r = request rt op reason ttl now new_id svc in
    let (at, is, keyed) = requested rt op reason ttl now new_id svc k in
    let id = r.0.approval_id in
    let written = grant_writes rt stamp works id r.1 r.0 at in
    let keyed' : IsKeyed (λ (a : ApprovalRequest). a.approval_id)
        (grant rt stamp works id r.1).1.requests =
      rw written (
        IsKeyed-put (λ (a : ApprovalRequest). a.approval_id) r.1.requests id
          (with_status granted r.0) keyed refl) in
    elim (check_and_consume_lem rt op later (grant rt stamp works id r.1).1 keyed') [
      | inl h ↦ h.0
      | inr h ↦ absurd (
          ground (
            arith,
            granted_matches rt op later r.0 is lt,
            h.1 id (with_status granted r.0) (
                rw written
                  (get-put r.1.requests id id (with_status granted r.0) ∙ rw (eq_refl id) refl)),
          ))
    ]
