-- ===== src/Daemon.antt =====
-- The daemons of the coins whose wallets are accounts: daemons/genericprocessor.py.
pub mod Requests
pub mod Blocks
pub mod Wallets
pub mod Server
pub mod Storage
pub mod Failover
pub mod Events
