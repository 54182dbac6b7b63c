-- ===== src/Attrs.antt =====
-- pkg/otel/common/arrow and pkg/otel/common/otlp: attribute records
pub mod Value
pub mod Sorter
pub mod Decoder
pub mod Columns
pub mod Store
pub mod ParentIds
pub mod RoundTrip
pub mod Accumulator
pub mod Rows
pub mod Grouping
pub mod Mismatch
