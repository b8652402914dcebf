-- ===== src/Section.antt =====
-- The sections of an event (section/services/section-write.service.ts).
pub mod Write
pub mod Rename
pub mod Names
