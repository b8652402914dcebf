-- ===== src/Geometry.antt =====
-- The layout generator (layout/utils/geometry-engine.ts).
pub mod Ids
pub mod Places
pub mod Enough
pub mod Engine
pub mod Counts
