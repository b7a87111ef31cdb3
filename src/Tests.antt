-- ===== src/Tests.antt =====
-- Small stand-ins for the libraries that the program calls, and the theorems at concrete inputs.
pub mod Fixtures
pub mod Markup
pub mod Signing
pub mod Requests
pub mod Answers
pub mod Listing
pub mod Pages
pub mod Lives
pub mod Shutdowns
pub mod Crews
pub mod Sessions
pub mod Runs
pub mod Wires
pub mod Commands
pub mod Caches
