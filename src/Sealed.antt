-- ===== src/Sealed.antt =====
-- decision_os_min/sealed.py: the runtime that admits an agent by a ticket and runs a tool only
-- through the kernel and the executor.
mod Admission
mod ToolRegistry
mod Legitimacy
mod Armed
mod Defs
mod Checks
mod Emission
mod Invoke
mod Screened
mod Effects
pub mod Mediated
pub mod Single
pub mod Sealing
pub mod Inert
pub mod Ticket
unfoldable pub use Admission.*
unfoldable pub use ToolRegistry.*
unfoldable pub use Legitimacy.*
unfoldable pub use Armed.*
unfoldable pub use Defs.*
unfoldable pub use Checks.*
unfoldable pub use Emission.*
unfoldable pub use Invoke.*
