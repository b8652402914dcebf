-- ===== src/Projections.antt =====
-- The projections of other services' data that messages keep up to date.
pub mod Rows
pub mod Roles
pub mod Access
pub mod Fresh
pub mod Newest
pub mod Reorder
pub mod Deleted
pub mod Settings
pub mod Known
pub mod Permissions
pub mod Invitations
