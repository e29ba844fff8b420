-- ===== src/NfManager/Slots.antt =====
-- nf_mgr.go: a switch never has more network functions than slots.
pub mod Count
pub mod Handles
pub mod Stages
pub mod Kept
pub mod Bound
