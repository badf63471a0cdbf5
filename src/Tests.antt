-- ===== src/Tests.antt =====
-- Runs of the definitions on small inputs.
pub mod Formats
pub mod Runs
pub mod Logs
pub mod Tables
pub mod Queries
pub mod Language
pub mod ApiTokens
pub mod Security
pub mod Ingestion
pub mod Recovery
pub mod Interleaving
