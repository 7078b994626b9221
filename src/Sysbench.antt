-- ===== src/Sysbench.antt =====
-- The statistics of benchmarks/sysbench/src.
pub mod Counter
pub mod Histogram
pub mod Tests
