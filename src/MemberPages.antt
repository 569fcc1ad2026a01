-- ===== src/MemberPages.antt =====
-- The books and the borrowings of a member: pages whose list is stored as it comes.
mod Defs
pub mod Replay
pub mod Headers
unfoldable pub use Defs.*
