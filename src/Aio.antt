-- ===== src/Aio.antt =====
-- fq/aio: the asynchronous client. One task is modelled; what other tasks do meanwhile shows in the
-- outcome of a call that waits.
pub mod Connection
pub mod Pool
pub mod Retry
pub mod Client
pub mod Sharded
