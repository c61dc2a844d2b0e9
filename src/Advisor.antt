-- ===== src/Advisor.antt =====
-- internal/advisor: the language model's verdicts, from the validated answer to the decision on a hold.
pub mod Digest
pub mod Service
pub mod Classify
pub mod Vetted
pub mod Verdict
pub mod Runs
