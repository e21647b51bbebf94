-- ===== src/Approval.antt =====
-- RI/src/emcp_bus/approval/: approval requests bound to one exact operation, and the service that
-- grants and consumes them. Times are counts of microseconds.
pub mod SingleUse
pub mod Consume
pub mod Pending
pub mod Roundtrip
use Prim.Native.Nat.{◌*◌}
use enterprise_mcp_service_b.Base.{
  ℕ, ◌+◌, String, Bool, true, false, not, ◌&&◌, Option, none, some, List, [], ◌∷◌, Result, ok, err,
  Dict, get, put, ◌==◌, leb, if◌then◌else◌,
}
use enterprise_mcp_service_b.Json.{Json, Fields, str, obj, field, end, Runtime}
use enterprise_mcp_service_b.Json.Keys.{sort_keys}
use enterprise_mcp_service_b.Audit.Events.{Stamp, AuditLog, base, emit, approval_granted}

module _ (rt : Runtime) where
  unfoldable pub compute_operation_hash : (client_profile tool : String) → Fields → String
  compute_operation_hash client_profile tool arguments = rt.sha256 (
      rt.dumps (
        sort_keys (
          obj (
            field "client_profile" (str client_profile)
              (field "tool" (str tool) (field "arguments" (obj arguments) end))))))

pub data ApprovalStatus : Type 0 where
  pending granted denied consumed : ApprovalStatus

abbrev pub is_pending : ApprovalStatus → Bool
is_pending pending = true
is_pending _ = false

abbrev pub is_granted : ApprovalStatus → Bool
is_granted granted = true
is_granted _ = false

pub record ApprovalRequest : Type 0 where
  pub approval_id : String
  pub operation_hash : String
  pub client_profile : String
  pub tool : String
  pub arguments_summary : Fields
  pub reason_code : String
  pub requested_at : ℕ
  pub expires_at : ℕ
  pub status : ApprovalStatus

abbrev pub is_expired : ApprovalRequest → ℕ → Bool
is_expired approval now = leb approval.expires_at now

-- `_requests` and the sink; `audited` is false where `audit_sink` is None.
pub record ApprovalService : Type 0 where
  pub requests : Dict ApprovalRequest
  pub audited : Bool
  pub log : AuditLog

-- `ApprovalNotFoundError`, or what the sink raised
pub data ApprovalError : Type 0 where
  approval_not_found : String → ApprovalError
  sink_failed : String → ApprovalError

-- One operation, as the service's methods take it.
pub record Operation : Type 0 where
  pub client_profile : String
  pub tool : String
  pub arguments : Fields

abbrev pub hash_of : Runtime → Operation → String
hash_of rt op = compute_operation_hash rt op.client_profile op.tool op.arguments

abbrev pub matches_pending : String → ℕ → ApprovalRequest → Bool
matches_pending operation_hash now approval =
    approval.operation_hash == operation_hash
    && is_pending approval.status
    && not (is_expired approval now)

-- `_pending_for_operation`
unfoldable pub pending_for_operation : String → ℕ → Dict ApprovalRequest → Option ApprovalRequest
pending_for_operation operation_hash now [] = none
pending_for_operation operation_hash now ((key, approval) ∷ rest) =
    if matches_pending operation_hash now approval
    then some approval
    else pending_for_operation operation_hash now rest

abbrev pub new_request :
    Runtime → Operation → String → (ttl_seconds now : ℕ) → String → ApprovalRequest
new_request rt op reason_code ttl_seconds now new_id = record {
  approval_id = new_id;
  operation_hash = hash_of rt op;
  client_profile = op.client_profile;
  tool = op.tool;
  arguments_summary = op.arguments;
  reason_code = reason_code;
  requested_at = now;
  expires_at = now + ttl_seconds * 1_000_000;
  status = pending;
}

-- `new_id` is the `uuid4` that a new request takes.
unfoldable pub request :
    Runtime
    → Operation
    → String
    → (ttl_seconds now : ℕ) → String
    → ApprovalService
    → ApprovalRequest × ApprovalService
request rt op reason_code ttl_seconds now new_id svc =
    elim (pending_for_operation (hash_of rt op) now svc.requests) [
      | some existing ↦ (existing, svc)
      | none ↦
          let approval = new_request rt op reason_code ttl_seconds now new_id in
          (approval, record svc { requests = put svc.requests new_id approval })
    ]

abbrev pub with_status : ApprovalStatus → ApprovalRequest → ApprovalRequest
with_status status approval = record approval { status = status }

abbrev answer_emit :
    ApprovalService → Result String Unit × AuditLog → Result ApprovalError Unit × ApprovalService
answer_emit svc (ok u, log) = (ok u, record svc { log = log })
answer_emit svc (err e, log) = (err (sink_failed e), record svc { log = log })

-- The status is written before the event is emitted, and whatever it was.
unfoldable pub grant :
    Runtime → Stamp → Bool → String → ApprovalService → Result ApprovalError Unit × ApprovalService
grant rt stamp sink_works approval_id svc = elim (get svc.requests approval_id) [
  | none ↦ (err (approval_not_found approval_id), svc)
  | some approval ↦
      let svc' = record svc {
        requests = put svc.requests approval_id (with_status granted approval);
      } in
      if svc.audited
      then answer_emit svc' (
          emit sink_works
            (base rt stamp
              (approval_granted approval.approval_id approval.client_profile approval.tool))
            svc.log)
      else (ok tt, svc')
]

unfoldable pub deny : String → ApprovalService → Result ApprovalError Unit × ApprovalService
deny approval_id svc = elim (get svc.requests approval_id) [
  | none ↦ (err (approval_not_found approval_id), svc)
  | some approval ↦
      (ok tt, record svc { requests = put svc.requests approval_id (with_status denied approval) })
]

abbrev pub matches_granted : String → ℕ → ApprovalRequest → Bool
matches_granted operation_hash now approval =
    approval.operation_hash == operation_hash
    && is_granted approval.status
    && not (is_expired approval now)

-- The loop of `check_and_consume`, under the lock: the first approval that matches is consumed.
unfoldable pub consume_first : String → ℕ → Dict ApprovalRequest → Bool × Dict ApprovalRequest
consume_first operation_hash now [] = (false, [])
consume_first operation_hash now ((key, approval) ∷ rest) =
    let later = consume_first operation_hash now rest in
    if matches_granted operation_hash now approval
    then (true, (key, with_status consumed approval) ∷ rest)
    else (later.0, (key, approval) ∷ later.1)

unfoldable pub check_and_consume :
    Runtime → Operation → ℕ → ApprovalService → Bool × ApprovalService
check_and_consume rt op now svc =
    let (found, requests) = consume_first (hash_of rt op) now svc.requests in
    (found, record svc { requests = requests })
