-- ===== src/Webots.antt =====
-- workers/webots/launcher.py: the end of the worker, where its process groups are removed.
pub mod Cleanup
mod Tests
