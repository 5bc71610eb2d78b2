-- ===== src/Types.antt =====
-- types/: the errors and the records that the server's parts exchange.
pub mod Error
pub mod Models
