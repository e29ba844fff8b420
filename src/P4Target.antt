-- ===== src/P4Target.antt =====
-- targets/bmv2/managers/p4target
pub mod Bridge
pub mod Manager
pub mod Conditions
pub mod Runs
pub mod Addresses
pub mod Configuration
mod Tests
