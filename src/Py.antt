-- ===== src/Py.antt =====
-- The values that cross the program's boundaries. The code works on plain dicts whose fields are
-- read with `.get`, so an action, a decision and a plugin's output are all a `Dict` of a `Value`.
mod Defs
pub mod Laws
pub mod Exc
pub mod Runtime
pub mod Times
pub mod Plugin
pub use Defs.{Value, Items, Dict, ℤ}
unfoldable pub use Defs.{get, put, without, set_default, truthy, get_or_else, get_default}
unfoldable pub use Defs.{has_key, of_texts, is_some, value_or, or_value, hashable, all_hashable}
