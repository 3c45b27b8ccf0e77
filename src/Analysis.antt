-- ===== src/Analysis.antt =====
-- src/analysis: reachability of functions, control flow graphs, the value lattice.
pub mod Reachability
pub mod Lattice
pub mod Cfg
pub mod Dominance
