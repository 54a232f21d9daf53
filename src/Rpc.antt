-- ===== src/Rpc.antt =====
-- The RPC library (directory rpc).
pub mod Marshall
pub mod Unmarshall
pub mod Codec
pub mod Message
pub mod Window
pub mod Server
pub mod Client
pub mod Call
pub mod Bind
pub mod Ending
pub mod Connection
pub mod Pollmgr
pub mod Pool
pub mod Timespec
mod Tests
mod Runs
