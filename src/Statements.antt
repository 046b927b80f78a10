-- ===== src/Statements.antt =====
-- middleware/app/statement_builder.py: the SQL texts that go into Vault's roles.
mod Templates
mod Maintenance
pub mod Identifier
pub mod Commands
pub mod Chosen
pub mod Quoting
pub mod Pieces
pub mod Creation
pub mod Readback
pub mod Accounts
unfoldable pub use Templates.*
unfoldable pub use Maintenance.*
