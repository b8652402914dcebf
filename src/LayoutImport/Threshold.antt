-- ===== src/LayoutImport/Threshold.antt =====
-- layout-import/recognizers/raster-components.ts, binaryThreshold: Defs has the code, Outcome how it
-- ends.
pub mod Defs
pub mod Outcome
