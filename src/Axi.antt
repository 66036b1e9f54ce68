-- ===== src/Axi.antt =====
-- The kernel driver ad936x-axi/files/ad936x-axi.c: its state, one module for each group of file
-- operations, and the modules that prove what the operations guarantee.
pub mod State
pub mod Timer
pub mod Read
pub mod Write
pub mod Control
pub mod Rx
pub mod Tx
pub mod Api
pub mod Stats
pub mod Probe
mod Tests
mod ReportTests
mod TxTests
mod InterleaveTests
