-- ===== src/Simulation.antt =====
-- ros_ws/src/robotics_runtime_infra/robotics_runtime_infra/simulation_control.py: the node that
-- controls a simulator through ROS 2 simulation_interfaces.
pub mod Node
pub mod Control
pub mod Conformance
pub mod Tests
