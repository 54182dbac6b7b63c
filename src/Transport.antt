-- ===== src/Transport.antt =====
-- pkg/otel/arrow_record and pkg/record_message: batches of Arrow records on sub-streams.
pub mod Ipc
pub mod Producer
pub mod Consumer
pub mod Mirror
pub mod Delivery
pub mod Messages
pub mod RoundTrip
pub mod Batches
pub mod Faults
pub mod Build
