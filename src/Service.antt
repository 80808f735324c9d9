-- ===== src/Service.antt =====
-- decision_os_min/service.py: the HTTP service around a kernel and a log. Config has what the
-- environment configures, Endpoints
-- `create_app` and POST /v1/decide, Queries the handlers that change nothing. FastAPI, its models' validation, the environment
-- and the files are parameters.
mod Config
mod Endpoints
mod Queries
pub mod Recorded
pub mod Counted
pub mod Dump
unfoldable pub use Config.*
unfoldable pub use Endpoints.*
unfoldable pub use Queries.*
