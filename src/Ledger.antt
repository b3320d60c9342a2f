-- ===== src/Ledger.antt =====
-- The books of reserved tokens: what systems and goals have reserved, against the attempts that
-- hold a reservation.
pub mod Charge
pub mod Sums
pub mod Books
pub mod Steps
pub mod Frames
pub mod Keeps
pub mod Admitted
pub mod Closing
pub mod Settled
pub mod Constraints
pub mod Commits
pub mod History
