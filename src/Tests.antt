-- ===== src/Tests.antt =====
-- Sample data, and the theorems at it.
pub mod Data
mod Seats
mod Projections
mod Outbox
mod Names
mod ColorGroups
mod Layouts
mod Handlers
mod Generated
mod Import
mod Tickets
mod Uploads
mod Copies
