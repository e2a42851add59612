-- ===== src/Retrieval.antt =====
-- src/cranus/retrieval: the fusion of ranked lists.
pub mod Fusion
