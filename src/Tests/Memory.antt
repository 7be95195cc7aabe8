-- ===== src/Tests/Memory.antt =====
-- Tables as lists, a Redis as a map, and a codec that writes each field with its length: instances
-- of the interfaces of Infra that meet the laws.
pub mod Rows
pub mod Store
pub mod Json
pub mod Tokens
pub mod Migrations
