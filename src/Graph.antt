-- ===== src/Graph.antt =====
-- src/cranus/graph: resolved mentions, promoted edges and merged entities.
pub mod Store
pub mod Edges
pub mod Review
pub mod Resolve
pub mod Lookup
pub mod Relations
pub mod Documents
pub mod Batch
