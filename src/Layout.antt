-- ===== src/Layout.antt =====
-- The layouts of events (layout/services/layout-write.service.ts and layout/utils).
pub mod Plan
pub mod Versions
pub mod Restore
pub mod Edit
pub mod Copy
pub mod Copies
pub mod Stranded
pub mod Generate
pub mod Generated
pub mod History
pub mod Holders
pub mod Cleared
