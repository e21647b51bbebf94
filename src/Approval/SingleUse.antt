-- ===== src/Approval/SingleUse.antt =====
-- No approval is spent twice: over any history of the service, what is consumed was granted.
use enterprise_mcp_service_b.Base.{
  ℕ, ◌+◌, ◌≤◌, String, ◌≡◌, Bool, none, some, List, [], ◌∷◌, Dict, get, put, ◌==◌, eq_iff, arith,
  ◌&&◌, if◌then◌else◌, inl, inr, Bool-cases, Option-cases,
}
use enterprise_mcp_service_b.Json.{Runtime}
use enterprise_mcp_service_b.Audit.Events.{Stamp, emit}
use enterprise_mcp_service_b.Approval.{
  Operation, ApprovalRequest, ApprovalService, granted, denied, is_granted, hash_of,
  pending_for_operation, with_status, request, grant, deny, consume_first, check_and_consume,
  new_request,
}

-- One call of a method of the service, with what it takes from the outside.
pub data Call : Type 0 where
  requests : Operation → String → (ttl_seconds now : ℕ) → String → Call
  grants : Stamp → Bool → String → Call
  denies : String → Call
  checks : Operation → ℕ → Call

module _ (rt : Runtime) where
  unfoldable pub perform : Call → ApprovalService → ApprovalService
  perform (requests op reason ttl now new_id) svc = (request rt op reason ttl now new_id svc).1
  perform (grants stamp works id) svc = (grant rt stamp works id svc).1
  perform (denies id) svc = (deny id svc).1
  perform (checks op now) svc = (check_and_consume rt op now svc).1

  -- Whether the call consumes an approval for the operation with this hash.
  abbrev consumes : String → Call → ApprovalService → ℕ
  consumes h (checks op now) svc =
      if hash_of rt op == h && (check_and_consume rt op now svc).0 then 1 else 0
  consumes h _ svc = 0

  -- Whether the call grants an approval for the operation with this hash.
  abbrev grants_one : String → Call → ApprovalService → ℕ
  grants_one h (grants stamp works id) svc = elim (get svc.requests id) [
    | none ↦ 0
    | some approval ↦ if approval.operation_hash == h then 1 else 0
  ]
  grants_one h _ svc = 0

  unfoldable pub count_consumed : String → List Call → ApprovalService → ℕ
  count_consumed h [] svc = 0
  count_consumed h (c ∷ cs) svc = consumes h c svc + count_consumed h cs (perform c svc)

  unfoldable pub count_granted : String → List Call → ApprovalService → ℕ
  count_granted h [] svc = 0
  count_granted h (c ∷ cs) svc = grants_one h c svc + count_granted h cs (perform c svc)

abbrev held_one : String → ApprovalRequest → ℕ
held_one h approval = if approval.operation_hash == h && is_granted approval.status then 1 else 0

-- The granted approvals for the hash that are not consumed yet.
unfoldable pub held : String → Dict ApprovalRequest → ℕ
held h [] = 0
held h ((key, approval) ∷ rest) = held_one h approval + held h rest

-- What a write at a key can add.
held-put :
    (h k : String) (a : ApprovalRequest) (d : Dict ApprovalRequest)
    → held h (put d k a) ≤ held h d + held_one h a
unfolding held put
held-put h k a [] = omega arith
held-put h k a ((j, b) ∷ d) = elim (Bool-cases (j == k)) [
  | inl e ↦ rw e (omega arith)
  | inr e ↦ rw e (omega (arith, held-put h k a d))
]

held-consume_first :
    (h g : String) (now : ℕ) (d : Dict ApprovalRequest)
    → held h (consume_first g now d).1 + (if g == h && (consume_first g now d).0 then 1 else 0)
      ≤ held h d
unfolding held consume_first
held-consume_first h g now [] = ground arith
held-consume_first h g now ((k, a) ∷ d) = ground (
  arith,
  eq_iff a.operation_hash g,
  eq_iff a.operation_hash h,
  eq_iff g h,
  held-consume_first h g now d,
)

module _ (rt : Runtime) (h : String) where
  abbrev Bounded : Call → ApprovalService → Type 0
  Bounded c svc =
      held h (perform rt c svc).requests + consumes rt h c svc
      ≤ held h svc.requests + grants_one rt h c svc

  grant-Bounded :
      (stamp : Stamp) (works : Bool) (id : String) (svc : ApprovalService)
      → Bounded (grants stamp works id) svc
  unfolding perform grant emit
  grant-Bounded stamp works id svc = elim (Option-cases (get svc.requests id)) [
    | inl e ↦ ground (arith, e)
    | inr (a, e) ↦ ground (arith, e, held-put h id (with_status granted a) svc.requests)
  ]

  perform-Bounded : (c : Call) (svc : ApprovalService) → Bounded c svc
  unfolding perform
  perform-Bounded (requests op reason ttl now new_id) svc =
      unfold request in
      elim (Option-cases (pending_for_operation (hash_of rt op) now svc.requests)) [
        | inl e ↦
            ground
              (arith, e, held-put h new_id (new_request rt op reason ttl now new_id) svc.requests)
        | inr (a, e) ↦ ground (arith, e)
      ]
  perform-Bounded (grants stamp works id) svc = grant-Bounded stamp works id svc
  perform-Bounded (denies id) svc =
      unfold deny in
      elim (Option-cases (get svc.requests id)) [
        | inl e ↦ ground (arith, e)
        | inr (a, e) ↦ ground (arith, e, held-put h id (with_status denied a) svc.requests)
      ]
  perform-Bounded (checks op now) svc =
      unfold check_and_consume in
      omega (arith, held-consume_first h (hash_of rt op) now svc.requests)

  history-Bounded :
      (cs : List Call) (svc : ApprovalService)
      → count_consumed rt h cs svc ≤ held h svc.requests + count_granted rt h cs svc
  unfolding count_consumed count_granted
  history-Bounded [] svc = omega arith
  history-Bounded (c ∷ cs) svc =
      omega (arith, perform-Bounded c svc, history-Bounded cs (perform rt c svc))

-- From a service with no requests, over any sequence of calls of its methods by any callers, at any
-- times and whatever ids new requests get, the attempts of an operation that were approved are at
-- most the grants of approvals with that operation's hash.
pub consumed-le-granted :
    (rt : Runtime) (operation_hash : String) (cs : List Call) (svc : ApprovalService)
    → svc.requests ≡ []
    → count_consumed rt operation_hash cs svc ≤ count_granted rt operation_hash cs svc
consumed-le-granted rt h cs svc e =
    let none_held : held h svc.requests ≡ 0 = unfold held in rw e in
    omega (arith, none_held, history-Bounded rt h cs svc)
