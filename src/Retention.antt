-- ===== src/Retention.antt =====
-- docker/evidence-sink/retained-artifact.py: retained S3 artifacts are verified against a public key.
pub mod Registration
pub mod Download
pub mod Statement
pub mod Verify
mod Tests
