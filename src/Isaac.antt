-- ===== src/Isaac.antt =====
-- workers/isaac/native-observe.py: the phases in which the native application is kept paused.
pub mod Phases
mod Tests
