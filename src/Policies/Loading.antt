-- ===== src/Policies/Loading.antt =====
-- The load of a policy of src/Policies.cpp, as a whole.
pub mod Phases
pub mod Attach
pub mod Taps
pub mod Resources
pub mod Start
pub mod Publish
pub mod Register
pub mod Complete
pub mod Finish
