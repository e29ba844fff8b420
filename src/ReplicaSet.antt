-- ===== src/ReplicaSet.antt =====
-- The controller of NetworkFunctionReplicaSets
-- (operator/internal/controller/scheduling/networkfunctionreplicaset).
pub mod Expectations
pub mod SlowStart
pub mod Replicas
pub mod Functions
pub mod Order
pub mod Status
mod Tests
