-- ===== src/Execute.antt =====
-- decision_os_min/execute.py: the policy enforcement point. An effect runs only against a verified
-- decision for its action and a token that this call spends.
mod Checks
mod Defs
pub mod Gates
pub mod Audited
pub mod Once
unfoldable pub use Checks.*
unfoldable pub use Defs.*
