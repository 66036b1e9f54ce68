-- ===== src/Axi/Tx.antt =====
-- What `write` guarantees: the flushed ranges, the room that is left, and its error paths.
pub mod Flush
pub mod Room
pub mod Full
pub mod Play
pub mod Reach
pub mod Ahead
pub mod Content
