-- ===== src/Config.antt =====
-- config.rs: the configuration file's contents and their validation.
pub mod File
pub mod Modes
pub mod Valid
