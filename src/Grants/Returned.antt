-- ===== src/Grants/Returned.antt =====
-- What `issue` and `revoke` have done when they return.
pub mod History
pub mod Confirmed
pub mod Teardown
pub mod Revoke
pub mod Quiet
pub mod Activation
pub mod Issue
