-- ===== src/Api.antt =====
-- src/cranus/api: who is let through, and what administrators change.
pub mod Http
pub mod Auth
pub mod Users
pub mod Security
pub mod Connectors
pub mod Upload
