-- ===== src/Tests.antt =====
-- Runs on small inputs, and the theorems at inputs that meet their hypotheses.
mod Patching
mod Functions
mod Blocks
mod Refs
mod Scans
mod Fills
mod Branches
mod Relocations
mod Modules
mod Classes
