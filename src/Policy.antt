-- ===== src/Policy.antt =====
-- internal/policy: the rules and their clauses, the decision history, the engine.
pub mod Window
pub mod History
pub mod Rule
pub mod Reload
pub mod Engine
