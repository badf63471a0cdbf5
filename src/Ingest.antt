-- ===== src/Ingest.antt =====
-- The messages of the network servers (src/ingest).
pub mod Common
pub mod ChirpStack
pub mod Ttn
