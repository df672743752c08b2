-- ===== src/Daemon.antt =====
-- The daemon of internal/daemon: the usage state and the accounting of time.
pub mod State
pub mod Window
pub mod Accounting
pub mod Store
pub mod Service
pub mod Terminate
pub mod Tick
pub mod Iteration
pub mod Status
pub mod Users
pub mod Admin
pub mod Load
pub mod Run
pub mod Session
mod Tests
