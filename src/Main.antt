-- ===== src/Main.antt =====
-- main.go: the exported functions `C_*`. An output argument is part of the reply; an argument that
-- may be a null pointer is an option.
pub mod Reply
pub mod Buffers
pub mod Startup
pub mod Slots
pub mod Sessions
pub mod Search
pub mod Attributes
pub mod Signing
pub mod Unsupported
pub mod Api
pub mod Ensures
pub mod Bounds
