-- ===== src/Payloads.antt =====
-- soma/payload_chunks.py: payloads that are stored in one file, or in checked chunks.
pub mod Names
pub mod Codec
pub mod RoundTrip
pub mod Integrity
