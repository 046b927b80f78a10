-- ===== src/Vault.antt =====
-- middleware/app/vault_client.py
mod Service
mod Client
pub mod Frames
pub mod Halts
unfoldable pub use Service.*
unfoldable pub use Client.*
