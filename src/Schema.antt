-- ===== src/Schema.antt =====
-- pkg/otel/common/schema
pub mod Dictionary
pub mod Types
pub mod Tree
pub mod NewSchema
pub mod Record
