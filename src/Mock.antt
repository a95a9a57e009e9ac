-- ===== src/Mock.antt =====
-- runtime/src/test_utils.rs: the runtime that the tests of actors run on. It checks every call
-- against what the test expects; an assertion that does not hold is a panic.
pub mod Expectations
pub mod Codes
pub mod Core
pub mod Checking
pub mod Setup
pub mod Instance
pub mod Queries
pub mod State
pub mod States
pub mod Calls
pub mod Expecting
