-- ===== src/Attenuation.antt =====
-- decision_os_min/attenuation.py: root grants and macaroon-style attenuated delegations.
mod Caveats
mod Graph
pub mod Narrowing
pub mod Delegation
pub mod Granted
unfoldable pub use Caveats.*
unfoldable pub use Graph.*
