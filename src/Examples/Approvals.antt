-- ===== src/Examples/Approvals.antt =====
-- The approval service on a request, its grant and the retry.
use mathlib.Core.List.{List, [], ◌∷◌}
use enterprise_mcp_service_b.Base.{
  ◌≤◌, ◌<◌, ◌≡◌, refl, ◌⊎◌, true, false, none, IsKeyed, arith, get, put,
}
use enterprise_mcp_service_b.Approval.{
  ApprovalService, hash_of, request, grant, check_and_consume, pending_for_operation,
}
use enterprise_mcp_service_b.Audit.Events.{emit}
use enterprise_mcp_service_b.Approval.SingleUse.{
  Call, requests, grants, checks, count_consumed, count_granted, consumed-le-granted,
}
use enterprise_mcp_service_b.Approval.Roundtrip.{grant_enables}
use enterprise_mcp_service_b.Approval.Consume.{Spent, NoMatch, check_and_consume_lem}
use enterprise_mcp_service_b.Approval.Pending.{request_again}
use enterprise_mcp_service_b.Examples.Samples.{rt, operation, no_approvals, stamp}

-- One request, one grant, and two attempts.
abbrev history : List Call
history =
    requests operation "HIGH" 300 1_000 "a1"
    ∷ grants stamp true "a1"
    ∷ checks operation 2_000
    ∷ checks operation 3_000
    ∷ []

consumed-le-granted_example :
    count_consumed rt (hash_of rt operation) history no_approvals
    ≤ count_granted rt (hash_of rt operation) history no_approvals
consumed-le-granted_example =
    consumed-le-granted rt (hash_of rt operation) history no_approvals refl

in_time : 2_000 < (request rt operation "HIGH" 300 1_000 "a1" no_approvals).0.expires_at
unfolding request pending_for_operation
in_time = omega arith

grant_enables_example :
    (check_and_consume rt operation 2_000
      (grant rt stamp false
        (request rt operation "HIGH" 300 1_000 "a1" no_approvals).0.approval_id
        (request rt operation "HIGH" 300 1_000 "a1" no_approvals).1).1).0
    ≡ true
grant_enables_example =
    grant_enables rt operation "HIGH" 300 1_000 2_000 "a1" stamp false no_approvals tt in_time

free : get no_approvals.requests "a1" ≡ none
unfolding get
free = refl

request_again_example :
    request rt operation "LOW" 60 2_000 "a2"
      (request rt operation "HIGH" 300 1_000 "a1" no_approvals).1
    ≡ request rt operation "HIGH" 300 1_000 "a1" no_approvals
request_again_example =
    request_again rt operation "HIGH" "LOW" 300 60 1_000 2_000 "a1" "a2" no_approvals free
      (omega arith) in_time

-- The service with one granted approval
abbrev granted_service : ApprovalService
granted_service =
    (grant rt stamp true "a1" (request rt operation "HIGH" 300 1_000 "a1" no_approvals).1).1

keyed : IsKeyed (λ a. a.approval_id) granted_service.requests
unfolding grant request pending_for_operation put get emit
keyed = (refl, refl, tt)

check_and_consume_lem_example :
    (((check_and_consume rt operation 2_000 granted_service).0 ≡ true)
      × Spent
          (hash_of rt operation)
          2_000
          granted_service.requests
          (check_and_consume rt operation 2_000 granted_service).1.requests)
    ⊎ ((check_and_consume rt operation 2_000 granted_service ≡ (false, granted_service))
        × NoMatch (hash_of rt operation) 2_000 granted_service.requests)
check_and_consume_lem_example = check_and_consume_lem rt operation 2_000 granted_service keyed
