-- ===== src/Opstream.antt =====
-- internal/opstream/opstream.go: the ring of recent operations that the operator's screen shows.
pub mod Ring
pub mod Steps
pub mod Invariant
pub mod Snapshot
