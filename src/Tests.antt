-- ===== src/Tests.antt =====
-- A small world to run the module in, tests, and the theorems at concrete inputs.
mod Demo
mod Signing
mod Backend
mod Auth
mod Scope
mod Denial
mod Parts
mod Process
mod Attributes
mod Startup
mod Capture
mod Payloads
mod Api
