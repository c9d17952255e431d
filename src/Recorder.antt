-- ===== src/Recorder.antt =====
-- record-topics.py of examples/nav2-turtlebot3: a bounded recording of the navigation topics.
-- Times are nanoseconds of the monotonic clock.
pub mod Arguments
pub mod Artifact
pub mod Run
pub mod Capture
pub mod Close
mod Tests
