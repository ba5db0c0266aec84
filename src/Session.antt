-- ===== src/Session.antt =====
-- brain/session.py: the single-flight session manager
mod State
mod Frames
mod Methods
pub mod Diagram
pub mod Quiet
pub mod Schedule
pub mod Settled
pub mod Soundness
pub mod Outcomes
pub mod Stuck
pub mod Late
pub mod Reception
unfoldable pub use State.*
unfoldable pub use Frames.*
unfoldable pub use Methods.*
