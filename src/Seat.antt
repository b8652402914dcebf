-- ===== src/Seat.antt =====
-- The seats (seat/services/seat-write.service.ts), one child for each group of methods and one for
-- each group of theorems.
pub mod Common
pub mod Edit
pub mod Assign
pub mod Guest
pub mod Unassign
pub mod Rivals
pub mod Claimed
pub mod Loop
pub mod Sole
pub mod Free
pub mod Outcome
pub mod Stuck
pub mod Held
pub mod Settled
