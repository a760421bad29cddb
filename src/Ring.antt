-- ===== src/Ring.antt =====
-- src/ring_collectives.cpp: the collectives of one rank.
pub mod Schedule
pub mod Machine
pub mod Context
pub mod Step
pub mod Collectives
pub mod Phase
pub mod Call
pub mod World
