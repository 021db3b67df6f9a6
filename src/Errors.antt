-- ===== src/Errors.antt =====
-- errors.go: the sentinel errors, `APIError` and `RequestError`, and the return values that errors
-- become; from main.go the last step of that, `mapErrorToRV`. An error is its chain of `Unwrap`.
-- The words of an error other than an API error's message are a literal, without their arguments.
mod Defs
pub mod Mapping
unfoldable pub use Defs.*
