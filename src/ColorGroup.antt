-- ===== src/ColorGroup.antt =====
-- The colour group of a seat (seat/services/color-group-matcher.service.ts).
pub mod Matching
pub mod Best
