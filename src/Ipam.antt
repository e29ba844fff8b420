-- ===== src/Ipam.antt =====
-- The address management of the operator, the daemon and the bmv2 driver (pkg/ipam).
pub mod Netip
pub mod Network
pub mod Broadcast
pub mod Allocator
pub mod Pool
mod Tests
