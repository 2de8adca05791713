-- ===== src/Sync.antt =====
-- fq/sync: the synchronous client.
pub mod Connection
pub mod Retry
pub mod Pool
pub mod Stream
pub mod Client
pub mod Sharded
