-- ===== src/Ingestion.antt =====
-- The ingestion plane: src/cranus/ingestion.
pub mod Chunking
pub mod Gates
pub mod Items
