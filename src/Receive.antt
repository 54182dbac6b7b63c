-- ===== src/Receive.antt =====
-- The Arrow receiver of collector/gen/receiver/otlpreceiver/internal/arrow.
pub mod Headers
pub mod Merge
pub mod Statuses
pub mod Answered
