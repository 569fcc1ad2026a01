-- ===== src/Dates.antt =====
-- The due dates of the borrowing pages and of the member's dashboard.
mod Days
mod Badges
pub mod Laws
unfoldable pub use Days.*
unfoldable pub use Badges.*
