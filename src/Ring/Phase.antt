-- ===== src/Ring/Phase.antt =====
-- The two phases of src/ring_collectives.cpp on one rank: what their steps do to the buffers.
pub mod Fill
pub mod Scatter
pub mod Gather
pub mod Ready
pub mod ScatterRun
pub mod GatherRun
pub mod Failing
pub mod Tags
pub mod Trace
