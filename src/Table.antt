-- ===== src/Table.antt =====
-- The tables of a section (table/services/table-write.service.ts).
pub mod Write
pub mod Rename
