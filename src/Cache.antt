-- ===== src/Cache.antt =====
-- cache.go: the cached list of signers, and the cached certificates and public keys. A point in time
-- is a number of nanoseconds, and each operation is given the clock's reading.
mod Defs
pub mod Freshness
unfoldable pub use Defs.*
