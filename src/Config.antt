-- ===== src/Config.antt =====
-- config.go: the configuration file, its defaults, the environment and the validation.
mod Defs
pub mod Durations
pub mod Validation
unfoldable pub use Defs.*
