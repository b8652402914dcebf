-- ===== src/Store.antt =====
-- The database of the service (prisma/schema.prisma), as far as the seating services use it, and
-- the actions that the Prisma client runs on it. Columns that no modelled code reads or writes
-- are left out.
pub mod Rows
pub mod Exec
pub mod Tables
pub mod Post
pub mod Unique
pub mod Quiet
pub mod Keeps
pub mod Sets
