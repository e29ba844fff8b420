-- ===== src/Deployment.antt =====
-- The controller of NetworkFunctionDeployments
-- (operator/internal/controller/scheduling/networkfunctiondeployment).
pub mod Objects
pub mod Fenceposts
pub mod Scaling
mod Tests
