-- ===== src/Grants.antt =====
-- middleware/app/grants.py
mod Guarding
mod Teardown
mod Issue
mod Reconcile
pub mod Frames
pub mod Lifecycle
pub mod Release
pub mod Terminates
pub mod Halts
pub mod Ended
pub mod Returned
unfoldable pub use Guarding.*
unfoldable pub use Teardown.*
unfoldable pub use Issue.*
unfoldable pub use Reconcile.*
