-- ===== src/Export.antt =====
-- host/workers/legacy-finalization/export_retained.py: an admitted finite inventory is copied before
-- its source is released.
pub mod Admission
pub mod Copy
mod Tests
