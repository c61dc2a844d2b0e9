-- ===== src/Clients.antt =====
-- Who a request comes from: internal/identity and internal/sessions; and internal/reloadstatus, the
-- state of the reloads that the operator sees.
pub mod Identity
pub mod Sessions
pub mod Reloads
