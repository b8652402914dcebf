-- ===== src/Outbox.antt =====
-- The publisher of analytics facts (analytics/analytics-outbox.publisher.ts).
pub mod Publish
pub mod Rows
pub mod Later
pub mod Pass
