-- ===== src/Tests.antt =====
-- Concrete inputs: the theorems applied to them, and the fixtures they share.
mod Fixtures
mod Windows
mod Metrics
mod Frames
mod Stores
mod Texts
mod Lists
mod Addresses
mod Loads
mod Removals
mod Taps
