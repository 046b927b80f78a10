-- ===== src/Grants/Lifecycle.antt =====
-- How the operations change the rows of `grants`: the statuses move along the lifecycle, finished rows
-- stay as they are, and what was requested is never rewritten.
pub mod Rows
pub mod Ending
pub mod Issuing
pub mod Closing
mod Runs
pub mod Relation
pub use Relation.*
pub use Runs.*
