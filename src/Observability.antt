-- ===== src/Observability.antt =====
-- ros_ws/src/robotics_observability/robotics_observability: message measurements and metrics.
pub mod Measurements
pub mod Metrics
mod Tests
