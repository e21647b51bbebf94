-- ===== src/Approval/Pending.antt =====
-- Repeated requests for one operation find the pending one.
use enterprise_mcp_service_b.Base.{
  ℕ, String, ◌≡◌, ◌≤◌, ◌<◌, true, none, some, [], ◌∷◌, Dict, get, put, arith, inl, inr,
  Option-cases, eq_refl, subst,
}
use enterprise_mcp_service_b.Json.{Runtime}
use enterprise_mcp_service_b.Approval.{
  Operation, ApprovalRequest, ApprovalService, hash_of, matches_pending, pending_for_operation,
  new_request, request,
}

-- What is pending stays the first match until it expires.
pending_later :
    (h : String) (now later : ℕ) (d : Dict ApprovalRequest) (a : ApprovalRequest)
    → now ≤ later
    → later < a.expires_at
    → pending_for_operation h now d ≡ some a
    → pending_for_operation h later d ≡ some a
unfolding pending_for_operation
pending_later h now later [] a le lt e = cc
pending_later h now later ((k, b) ∷ d) a le lt e =
    ground (arith, pending_later h now later d a le lt)

pending-put :
    (h id : String) (now later : ℕ) (d : Dict ApprovalRequest) (a : ApprovalRequest)
    → now ≤ later
    → get d id ≡ none
    → matches_pending h later a ≡ true
    → pending_for_operation h now d ≡ none
    → pending_for_operation h later (put d id a) ≡ some a
unfolding pending_for_operation put get
pending-put h id now later [] a le fresh m e = rw m
pending-put h id now later ((k, b) ∷ d) a le fresh m e =
    ground (arith, pending-put h id now later d a le)

pub request_existing :
    (rt : Runtime) (op : Operation) (reason : String) (ttl now : ℕ) (new_id : String)
    (svc : ApprovalService) (a : ApprovalRequest)
    → pending_for_operation (hash_of rt op) now svc.requests ≡ some a
    → request rt op reason ttl now new_id svc ≡ (a, svc)
unfolding request
request_existing rt op reason ttl now new_id svc a e = rw (e, request)

abbrev stored : String → ApprovalRequest → ApprovalService → ApprovalService
stored id a svc = record svc { requests = put svc.requests id a }

pub request_new :
    (rt : Runtime) (op : Operation) (reason : String) (ttl now : ℕ) (new_id : String)
    (svc : ApprovalService)
    → pending_for_operation (hash_of rt op) now svc.requests ≡ none
    → request rt op reason ttl now new_id svc ≡ (
      new_request rt op reason ttl now new_id,
      stored new_id (new_request rt op reason ttl now new_id) svc,
    )
unfolding request
request_new rt op reason ttl now new_id svc e = rw (e, request)

matches_new :
    (rt : Runtime) (op : Operation) (reason : String) (ttl now later : ℕ) (new_id : String)
    → later < (new_request rt op reason ttl now new_id).expires_at
    → matches_pending (hash_of rt op) later (new_request rt op reason ttl now new_id) ≡ true
matches_new rt op reason ttl now later new_id lt = rw (eq_refl (hash_of rt op)) (ground arith)

module _ (rt : Runtime) (op : Operation) (reason reason' : String) (ttl ttl' now later : ℕ)
    (new_id new_id' : String) (svc : ApprovalService) where
  -- Asking again for the same operation, no earlier than the first time and before the first request
  -- expires, answers that request and changes nothing. The first request's new id is not in use.
  pub request_again :
      get svc.requests new_id ≡ none
      → now ≤ later
      → later < (request rt op reason ttl now new_id svc).0.expires_at
      → request rt op reason' ttl' later new_id' (request rt op reason ttl now new_id svc).1
        ≡ request rt op reason ttl now new_id svc
  request_again fresh le lt =
      elim (Option-cases (pending_for_operation (hash_of rt op) now svc.requests)) [
        | inl e ↦
            let first = request_new rt op reason ttl now new_id svc e in
            let a = new_request rt op reason ttl now new_id in
            let lt' = subst (λ p. later < p.0.expires_at) first lt in
            rw first (
              request_existing rt op reason' ttl' later new_id' (stored new_id a svc) a (
                pending-put (hash_of rt op) new_id now later svc.requests a le fresh
                  (matches_new rt op reason ttl now later new_id lt') e))
        | inr (a, e) ↦
            let first = request_existing rt op reason ttl now new_id svc a e in
            let lt' = subst (λ p. later < p.0.expires_at) first lt in
            rw first (
              request_existing rt op reason' ttl' later new_id' svc a
                (pending_later (hash_of rt op) now later svc.requests a le lt' e))
      ]
