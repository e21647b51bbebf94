-- ===== src/Audit/Bypass/Refusal.antt =====
-- Which requests pass the gate in front of a domain server, and what a refusal records.
use enterprise_mcp_service_b.Base.{
  String, ◌≡◌, refl, ◌≢◌, ◌↔◌, ◌⊎◌, inl, inr, Bool, true, false, ◌&&◌, Option, none, some, [], ◌∷◌,
  ◌++◌, eq_iff, arith, Option-cases, ne_str, ap, ◌∙◌,
}
use enterprise_mcp_service_b.Json.{Runtime}
use enterprise_mcp_service_b.Audit.Events.{Stamp, base, AuditLog, emit, bypass_attempt_detected}
use enterprise_mcp_service_b.Audit.Bypass.{
  BackendCredentialGate, passed_on, answered, extract_bearer_token, is_ascii, gate_call,
}

abbrev pub reason_of : Option String → String
reason_of none = "missing_credential"
reason_of (some presented) = "wrong_credential"

module _ (rt : Runtime) (gate : BackendCredentialGate) (stamp : Stamp) (sink_works : Bool) where
  -- An HTTP request reaches the wrapped app exactly when it bears the expected token (one that is
  -- ASCII), whatever is recorded; a scope of another type always reaches it. Where a request reaches
  -- the app, nothing is recorded.
  pub passed_on_iff :
      (is_http : Bool) (authorization : Option String) (log : AuditLog)
      → (((gate_call rt gate stamp sink_works is_http authorization log).0 ≡ passed_on) ↔ (
          (is_http ≡ false)
          ⊎ ((extract_bearer_token authorization ≡ some gate.expected_token)
              × (is_ascii gate.expected_token ≡ true))))
        × ((gate_call rt gate stamp sink_works is_http authorization log).0 ≡ passed_on
            → (gate_call rt gate stamp sink_works is_http authorization log).1 ≡ log)
  unfolding gate_call emit
  passed_on_iff false authorization log = ((λ e. inl refl, λ h. refl), λ e. refl)
  passed_on_iff true authorization log = elim (Option-cases (extract_bearer_token authorization)) [
    | inl e ↦ ((λ p. ground arith, λ h. ground arith), λ p. ground arith)
    | inr (presented, e) ↦ (
      (
        λ p. ground (arith, eq_iff presented gate.expected_token),
        λ h. ground (arith, eq_iff presented gate.expected_token),
      ),
      λ p. ground (arith, eq_iff presented gate.expected_token),
    )
  ]

  -- An HTTP request without the expected token is refused. Where the presented token is ASCII, and
  -- the gate has a sink that works, the answer is 401 and the log gains one event, which names the
  -- backend and whether the credential was missing or wrong.
  pub refusal_is_recorded :
      (authorization : Option String) (log : AuditLog)
      → extract_bearer_token authorization ≢ some gate.expected_token
      → ((presented : String)
          → extract_bearer_token authorization ≡ some presented
          → (is_ascii presented && is_ascii gate.expected_token) ≡ true)
      → gate.audited ≡ true
      → sink_works ≡ true
      → gate_call rt gate stamp sink_works true authorization log ≡ (
        answered 401 "backend_credential_required",
        log
            ++ base rt stamp (
                bypass_attempt_detected gate.backend
                  (reason_of (extract_bearer_token authorization)))
              ∷ [],
      )
  unfolding gate_call
  refusal_is_recorded authorization log other ascii audited works =
      elim (Option-cases (extract_bearer_token authorization)) [
        | inl e ↦ rw (e, audited, works)
        | inr (presented, e) ↦ rw e (
            rw (ascii presented e) (
              rw (ne_str presented gate.expected_token (λ q. other (e ∙ ap some q)))
                (rw (audited, works))))
      ]
