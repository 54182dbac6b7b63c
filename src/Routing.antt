-- ===== src/Routing.antt =====
-- collector/processor/experimentprocessor
pub mod Router
pub mod Shares
