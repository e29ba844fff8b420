-- ===== src/Dataplane.antt =====
-- The daemon's data plane: daemon/pkg/dataplane/vrf and its util package.
pub mod Matching
pub mod Parsing
pub mod ServiceChains
pub mod Routes
pub mod Kernel
pub mod Forward
pub mod Tunnels
pub mod TargetVrfs
pub mod TargetVrf
pub mod Alloc
pub mod Descendants
pub mod NodeIp
pub mod Parsed
mod Tests
