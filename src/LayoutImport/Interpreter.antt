-- ===== src/LayoutImport/Interpreter.antt =====
-- layout-import/recognizers/layout-interpreter.ts: Relations (how two shapes lie), Roles (which shapes
-- are sections, seats and tables) and Elements (interpretShapes); Tally, Counts and Reviews are about the
-- elements.
pub mod Relations
pub mod Roles
pub mod Elements
pub mod Tally
pub mod Counts
pub mod Reviews
