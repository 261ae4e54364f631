-- ===== src/Handle.antt =====
-- src/handle.rs and its children: a handle, the guard over its locked header, and its operations.
mod Defs
pub mod Guard
pub mod Ext
pub mod Operation
pub mod Poll
pub mod Frames
pub mod Locking
pub mod Balance
pub mod Cursor
pub mod Answers
pub mod Register
pub mod Reading
pub mod Books
pub mod Accounts
pub mod Futures
pub mod Streams
pub mod Writing
pub mod Kinds
pub mod Ending
pub mod Cancel
unfoldable pub use Defs.*
