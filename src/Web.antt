-- ===== src/Web.antt =====
-- middleware/app/main.py
mod Http
mod Errors
mod Origin
mod Sessions
mod Login
mod Routes
mod Guard
mod Portal
pub mod Kept
pub mod Vouched
pub mod Admitted
pub mod Started
pub mod Writes
pub mod Table
pub mod Entered
pub mod LoggedIn
pub mod LoggedOut
pub mod Accepted
pub mod Answers
pub mod Limits
pub mod Untouched
pub mod Unissued
pub mod Issuing
pub mod Closed
pub mod Handled
unfoldable pub use Http.*
unfoldable pub use Errors.*
unfoldable pub use Origin.*
unfoldable pub use Sessions.*
unfoldable pub use Login.*
unfoldable pub use Routes.*
unfoldable pub use Guard.*
unfoldable pub use Portal.*
