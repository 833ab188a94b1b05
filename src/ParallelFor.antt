-- ===== src/ParallelFor.antt =====
-- The parallel loop: src/mt/kupl_parallel_for.cpp and src/mt/kupl_check.cpp.
pub mod Range
pub mod Partition
pub mod Edge
pub mod Count
pub mod Digits
pub mod Grid
pub mod OneDim
pub mod Static
pub mod Dynamic
pub mod NdStatic
pub mod Check
pub mod Launch
pub mod Tests
