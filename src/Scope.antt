-- ===== src/Scope.antt =====
-- signing_context.go: the signing context of the host process, the redaction of its command line,
-- and the scope of an approval request.
mod Defs
pub mod Exclusions
pub mod Command
pub mod Capture
pub mod Secrecy
pub mod Truncation
unfoldable pub use Defs.*
