-- ===== src/Txrx.antt =====
-- The streaming application ad9361-txrx/files.
pub mod Net
pub mod Prbs
pub mod Session
pub mod Verify
pub mod Diag
pub mod Cli
pub mod Driver
pub mod Status
pub mod Rx
pub mod Tx
pub mod Main
mod Tests
mod DriverTests
mod DiagTests
mod StreamTests
mod TxTests
mod SessionTests
