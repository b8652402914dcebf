-- ===== src/LayoutImport.antt =====
-- layout-import: an uploaded plan (Contract and Upload), and the shapes found in its pixels (the others).
pub mod Recognizer
pub mod Flood
pub mod Threshold
pub mod Components
pub mod Contour
pub mod Shapes
pub mod Interpreter
pub mod Analysis
pub mod Contract
pub mod Upload
