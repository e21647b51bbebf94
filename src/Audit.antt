-- ===== src/Audit.antt =====
-- RI/src/emcp_bus/audit/: the audit events, their sanitation, the sinks, the correlation of one
-- decision's events, and the gate in front of the domain servers.
pub mod Sanitize
pub mod Correlation
pub mod Events
pub mod Bypass
