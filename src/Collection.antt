-- ===== src/Collection.antt =====
-- host/workers/legacy-finalization/collect_inventory.py: the inventory of a finished run with the
-- arguments of the tools that qualify it, and the assessment that is checked against both.
pub mod Add
pub mod Collect
pub mod Assessment
mod Tests
