-- ===== src/Dashboards.antt =====
-- frontend/src/pages/librarian/Dashboard.tsx and frontend/src/pages/member/Dashboard.tsx, but for
-- the quick search, which is a module of its own.
mod Librarian
mod Member
pub mod Marking
pub mod Tiles
unfoldable pub use Librarian.*
unfoldable pub use Member.*
