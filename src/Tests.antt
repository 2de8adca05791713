-- ===== src/Tests.antt =====
-- Concrete inputs: tests of the definitions, and the theorems at an input that meets their
-- hypotheses.
mod Wire
mod Replies
mod Requests
mod Shards
mod Network
mod Retries
mod Pools
mod Reports
mod Streams
mod Sharded
mod Answers
mod Asyncio
