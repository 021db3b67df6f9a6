-- ===== src/Client.antt =====
-- client.go: the calls of Infisical's API.
mod Defs
unfoldable pub use Defs.*
