-- ===== src/LayoutImport/Flood.antt =====
-- The flooding loops of layout-import/recognizers/raster-components.ts: a queue of pixels, from which
-- the neighbours of each are marked and queued in turn. An array is a function of its index. Defs has
-- the loop, Fuel the number of its rounds, Marks and Loop the meaning of the marks.
pub mod Defs
pub mod Fuel
pub mod Marks
pub mod Loop
