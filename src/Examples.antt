-- ===== src/Examples.antt =====
-- The theorems applied to concrete inputs, and runs of the definitions.
mod Dictionaries
mod Attributes
mod Traces
mod Transport
mod Export
mod Receive
mod Routing
mod Controller
mod Schemas
mod Spans
mod SpanOrders
mod Memory
mod Answers
