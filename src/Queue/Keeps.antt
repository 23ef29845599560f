-- ===== src/Queue/Keeps.antt =====
-- Each operation of the queue keeps the table valid and changes its items legally.
mod Transitions
mod Claims
mod Blockers
mod Retries
mod Dependencies
mod Finish
pub use Transitions.*
pub use Claims.*
pub use Blockers.*
pub use Retries.*
pub use Dependencies.*
pub use Finish.*
