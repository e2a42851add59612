-- ===== src/Connectors.antt =====
-- src/cranus/connectors: the discovery of the web crawler, and the connectors of single sources.
pub mod Crawler
pub mod Upload
pub mod Edgar
