-- ===== src/ControlPlane.antt =====
-- How agentctl converges an agent on request: agentctl/src/control_plane and agentctl/src/controller.rs.
pub mod Failures
pub mod Convergence
pub mod Waits
pub mod Scheduler
mod Tests
