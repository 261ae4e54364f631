-- ===== src/Socket.antt =====
-- src/socket.rs and its children: a listening socket, its guard, and the accept of a connection.
mod Defs
pub mod Guard
pub mod Accept
pub mod Poll
pub mod Entry
pub mod Submission
pub mod Reuse
pub mod Register
pub mod Frames
pub mod Connection
pub mod Placed
pub mod Balance
pub mod Books
pub mod Accounts
pub mod Answers
pub mod Liveness
pub mod Ready
pub mod Own
pub mod Lifted
unfoldable pub use Defs.*
