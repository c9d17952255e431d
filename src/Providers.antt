-- ===== src/Providers.antt =====
-- scripts/ci: the producers of provider conformance results, from what a probe has retained.
pub mod Simulation
pub mod Playback
mod Tests
