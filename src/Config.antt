-- ===== src/Config.antt =====
-- nih/config.c, the parser for configuration files.
pub mod Token
pub mod Result
pub mod Tracks
pub mod Scan
pub mod Args
pub mod Block
pub mod Stanza
mod Tests
