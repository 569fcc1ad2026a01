-- ===== src/Members.antt =====
-- frontend/src/pages/librarian/Members.tsx
mod Defs
mod Row
pub mod Directory
pub mod Saving
unfoldable pub use Defs.*
unfoldable pub use Row.*
