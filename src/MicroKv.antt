-- ===== src/MicroKv.antt =====
-- MicroKV/python/microkv/client.py and the peer that it talks to, MicroKV/src.
pub mod Wire
pub mod Keys
pub mod Payload
pub mod Socket
pub mod Client
mod Tests
