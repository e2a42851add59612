-- ===== src/Query.antt =====
-- The query plane: src/cranus/query.
pub mod Verify
pub mod Render
pub mod Pipeline
