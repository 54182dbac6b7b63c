-- ===== src/Memory.antt =====
-- pkg/otel/common/arrow/allocator.go
pub mod Allocator
