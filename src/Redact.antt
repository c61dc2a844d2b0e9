-- ===== src/Redact.antt =====
-- internal/redact/redact.go: redaction of what goes to the audit log.
pub mod Headers
pub mod Body
