-- ===== src/Compose.antt =====
-- decision_os_min/compose.py: verdicts, their meet, and what an evaluator's output may contribute.
-- A verdict is the text that the code passes, in the lattice or not.
mod Defs
pub mod Lattice
pub mod Output
unfoldable pub use Defs.{
  allow, deny, limit, contain, defer, is_permitting, in_permitting, rank, normalize_text, normalize,
  meet, compose, action_ref_of, as_decision, contributable, sanitize, verdict_of, more_restrictive,
  text, type_name, fold_meet, as_decision_dict, keep_contributable, plain_reason,
}
