-- ===== src/Kernel.antt =====
-- decision_os_min/kernel.py: the sole signer of decisions and minter of one-time tokens.
mod Fingerprint
mod State
mod Evaluate
mod Decide
pub mod Composed
pub mod Tokenless
pub mod Advice
pub mod Compared
pub mod Advised
pub mod Contained
pub mod Access
pub mod Minting
unfoldable pub use Fingerprint.*
unfoldable pub use State.*
unfoldable pub use Evaluate.*
unfoldable pub use Decide.*
