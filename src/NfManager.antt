-- ===== src/NfManager.antt =====
-- targets/bmv2/managers/nf: the manager that puts network functions on a switch.
pub mod Handle
pub mod Manager
pub mod Work
pub mod System
pub mod Slots
pub mod Closing
mod Tests
