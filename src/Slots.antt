-- ===== src/Slots.antt =====
-- slots.go: the handles of objects, the sessions and their manager. A Go map from handles to
-- sessions is an association list; a session that a caller changes through its pointer is written
-- back under its handle. The locks are left out: each operation runs alone.
mod Defs
pub mod Refinement
pub mod Handles
pub mod Sessions
pub mod Lookup
unfoldable pub use Defs.*
