-- ===== src/Pattern.antt =====
-- internal/pattern: the URL families that requests are recognised as, and their registry.
pub mod Registry
pub mod Arm
