-- ===== src/SpentStore.antt =====
-- decision_os_min/spentstore.py: the record of spent tokens, and its three implementations.
mod Protocol
pub mod InMemory
pub mod Sqlite
pub mod File
unfoldable pub use Protocol.*
