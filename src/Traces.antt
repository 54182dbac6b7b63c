-- ===== src/Traces.antt =====
-- pkg/otel/traces: links and events as related records, and spans
pub mod Groups
pub mod DeltaIds
pub mod Related
pub mod RoundTrip
pub mod Links
pub mod Events
pub mod Mismatch
pub mod RelatedData
pub mod Scan
pub mod EventScan
pub mod Spans
pub mod Optimizer
pub mod Orders
pub mod SpanOrder
