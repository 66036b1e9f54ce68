-- ===== src/Axi/Rx.antt =====
-- The receive ring seen as a stream of blocks.
pub mod Inv
pub mod Tick
pub mod Overrun
pub mod Serve
pub mod Run
pub mod Content
pub mod Stall
pub mod Interleave
