-- ===== src/Server.antt =====
-- brain/ws_server.py: the handler of one connection, its audio worker and their queue, as steps on
-- the connection and the session manager. The messages are those of brain/schema.py, parsed.
mod State
mod Handler
mod Worker
mod Ending
mod Steps
pub mod Queue
pub mod Endings
pub mod Leaks
pub mod Many
pub mod Timing
pub mod Draining
pub mod Interrupted
pub mod Sending
pub mod Exchange
pub mod Spoken
pub mod Log
pub mod Report
unfoldable pub use State.*
unfoldable pub use Handler.*
unfoldable pub use Worker.*
unfoldable pub use Ending.*
unfoldable pub use Steps.*
