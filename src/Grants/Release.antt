-- ===== src/Grants/Release.antt =====
-- The locks, the slots and the set of grants in flight after an operation of grants.py.
pub mod Left
pub mod Kept
pub mod Ends
pub mod Guarded
pub mod Operations
pub mod Admission
