-- ===== src/Window.antt =====
-- src/AbstractMetricsManager.h: the time window of metric buckets.
pub mod Bucket
pub mod Sampling
pub mod Manager
pub mod Export
pub mod Merge
