-- ===== src/Model.antt =====
-- The data model (src/model): identifiers, frames, decoded payloads, devices.
pub mod Text
pub mod Lorawan
pub mod Json
pub mod Frames
pub mod Device
