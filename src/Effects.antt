-- ===== src/Effects.antt =====
-- How the program's stateful code is modelled: calls of what lies outside it, the state that it
-- keeps, and the actions on both.
mod Calls
mod Monad
pub mod Frame
pub mod Returns
pub mod Ensures
pub mod Yields
pub mod Halts
pub use Calls.*
unfoldable pub use Monad.*
