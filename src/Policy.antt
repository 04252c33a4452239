-- ===== src/Policy.antt =====
-- crates/skimasque-policy: the policy engine.
pub mod Destination
pub mod Units
pub mod Identity
pub mod Model
pub mod Select
pub mod Learn
pub mod Lint
pub mod Eval
pub mod Verdict
pub mod Grant
