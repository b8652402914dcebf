-- ===== src/Presence.antt =====
-- The presence of guests at their seats (handlers/milestone.handler.ts).
pub mod Milestone
pub mod Visits
pub mod Scans
