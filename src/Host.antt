-- ===== src/Host.antt =====
-- decision_os_min/host.py: the process that holds the tools, and takes intents by lines of JSON.
mod Intents
mod Handle
mod Line
mod Serve
pub mod Wire
pub mod Hosted
pub mod Answers
pub mod Frames
pub mod Single
pub mod Ending
pub mod Client
pub mod Requested
pub mod Disarmed
unfoldable pub use Intents.*
unfoldable pub use Handle.*
unfoldable pub use Line.*
unfoldable pub use Serve.*
