-- ===== src/Export.antt =====
-- The Arrow exporter of collector/gen/exporter/otlpexporter/internal/arrow.
pub mod Waiters
pub mod Stream
pub mod Answers
pub mod Controller
