-- ===== src/Metrics.antt =====
-- src/Metrics.h and src/Metrics.cpp: the metric classes that every bucket is made of.
pub mod Counter
pub mod Quantile
pub mod Rate
pub mod Utf8
