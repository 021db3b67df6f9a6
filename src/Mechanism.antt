-- ===== src/Mechanism.antt =====
-- mechanism.go: PKCS#11 mechanisms, Infisical's signing algorithms, and `DigestInfo`.
mod Defs
pub mod Digests
unfoldable pub use Defs.*
