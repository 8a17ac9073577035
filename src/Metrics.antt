-- ===== src/Metrics.antt =====
-- pkg/metrics/system.go: what is asked of Prometheus, how often, and how the answers are read.
pub mod Retry
pub mod Types
pub mod NodeCpu
pub mod Queries
pub mod Collect
pub mod Extraction
