-- ===== src/QuickSearch.antt =====
-- The quick search of the two dashboards (frontend/src/pages/librarian/Dashboard.tsx and
-- frontend/src/pages/member/Dashboard.tsx), which is written the same in both.
mod Defs
pub mod Debounce
pub mod Shown
unfoldable pub use Defs.*
