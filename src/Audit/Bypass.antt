-- ===== src/Audit/Bypass.antt =====
-- RI/src/emcp_bus/audit/bypass_detection.py: the gate in front of a domain server.
pub mod Refusal
use text.Mathlib.Text.{find?}
use Prim.Native.String.{slice, len}
use enterprise_mcp_service_b.Base.{
  ℕ, ◌+◌, ◌-◌, String, ◌≡◌, refl, ◌≢◌, ◌⊎◌, inl, inr, Bool, true, false, not, ◌&&◌, ◌||◌, Option,
  none, some, List, [], ◌∷◌, Result, ok, err, ◌==◌, eq_iff, lower, codes, leb, begins, arith,
  if◌then◌else◌, Bool-cases, ◌<>◌,
}
use enterprise_mcp_service_b.Json.{Runtime}
use enterprise_mcp_service_b.Audit.Sanitize.{EventEnvelope}
use enterprise_mcp_service_b.Audit.Events.{Stamp, base, AuditLog, emit, bypass_attempt_detected}

-- `header.partition(" ")`: the text before the first space, and the text after it
abbrev pub partition_space : String → String × String
partition_space s = elim (find? s " ") [
  | none ↦ (s, "")
  | some i ↦ (slice s 0 i, slice s (i + 1) (len s))
]

same_codes : List ℕ → List ℕ → Bool
same_codes xs ys = begins xs ys && begins ys xs

-- `_extract_bearer_token`
unfoldable pub extract_bearer_token : Option String → Option String
unfolding same_codes
extract_bearer_token none = none
extract_bearer_token (some header) =
    let (scheme, value) = partition_space header in
    if not (same_codes (lower (codes scheme)) (codes "bearer")) || value == ""
    then none
    else some value

-- `hmac.compare_digest` raises TypeError on texts that are not ASCII.
abbrev all_ascii : List ℕ → Bool
all_ascii [] = true
all_ascii (c ∷ cs) = leb c 127 && all_ascii cs

unfoldable pub is_ascii : String → Bool
is_ascii text = all_ascii (codes text)

-- What the gate does with an HTTP request: pass it on to the wrapped app, or answer by itself.
pub data GateOutcome : Type 0 where
  passed_on : GateOutcome
  answered : (status_code : ℕ) (error : String) → GateOutcome
  -- the sink's exception leaves the middleware
  crashed : String → GateOutcome

-- An instance of `BackendCredentialGate`; `audited` is false where `audit_sink` is None.
pub record BackendCredentialGate : Type 0 where
  pub expected_token : String
  pub backend : String
  pub audited : Bool

abbrev refuse : Result String Unit × AuditLog → GateOutcome × AuditLog
refuse (ok u, log) = (answered 401 "backend_credential_required", log)
refuse (err e, log) = (crashed e, log)

module _ (rt : Runtime) (gate : BackendCredentialGate) (stamp : Stamp) (sink_works : Bool) where
  abbrev reject : String → AuditLog → GateOutcome × AuditLog
  reject reason log = refuse (
      if gate.audited
      then emit sink_works (base rt stamp (bypass_attempt_detected gate.backend reason)) log
      else (ok tt, log))

  -- `__call__` on a scope whose type is "http" or not
  unfoldable pub gate_call : Bool → Option String → AuditLog → GateOutcome × AuditLog
  unfolding emit
  gate_call is_http authorization log =
      if is_http
      then elim (extract_bearer_token authorization) [
        | none ↦ reject "missing_credential" log
        | some presented ↦
            if is_ascii presented && is_ascii gate.expected_token
            then if presented == gate.expected_token
              then (passed_on, log)
              else reject "wrong_credential" log
            else (crashed "TypeError", log)
      ]
      else (passed_on, log)
