-- ===== src/XsBench.antt =====
-- The integer and search code of benchmarks/XSBench/src/Simulation.c. A `double` is only compared
-- here: its type and its `>` are parameters.
pub mod Lcg
pub mod Grid
pub mod Tests
