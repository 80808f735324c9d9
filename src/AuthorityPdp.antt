-- ===== src/AuthorityPdp.antt =====
-- decision_os_min/authority_pdp.py: policy-decision providers, and the canonical form of a ruling.
-- The HTTP client and the processes of the adapters for OPA and Cedar are parameters.
mod Defs
pub mod Builtin
pub mod Canonical
pub mod Grants
pub mod Opa
pub mod Cedar
pub mod External
pub mod CedarPermits
unfoldable pub use Defs.*
