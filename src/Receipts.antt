-- ===== src/Receipts.antt =====
-- docker/evidence-sink/receipt-inputs.py: the inputs of a receipt are bound to an upload
-- registration, and the registered inputs of a finalized index are collected.
pub mod Chain
pub mod Inventory
mod Tests
