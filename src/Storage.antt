-- ===== src/Storage.antt =====
-- The tables of src/cranus/storage/models, as far as the modelled parts use them.
pub mod Json
pub mod Models
pub mod Table
pub mod Db
