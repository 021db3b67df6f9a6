-- ===== src/Backend.antt =====
-- backend.go: the state behind the module, and its operations on slots, sessions, objects, keys and
-- signatures. The log is output only and is left out, and so are the locks: each call runs alone.
pub mod State
pub mod Auth
pub mod Signers
pub mod Login
pub mod Keys
pub mod Find
pub mod Signing
pub mod Attributes
pub mod Info
pub mod Startup
pub mod Frame
pub mod Calls
pub mod Invariant
pub mod Guards
