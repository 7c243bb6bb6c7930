-- ===== src/Crypt.antt =====
-- src/crypt and src/supervisor/crypt_commands.c: the store of encrypted values.
pub mod Run
pub mod Database
pub mod Service
pub mod Commands
pub mod Handlers
mod Examples
