-- ===== src/Books.antt =====
-- frontend/src/pages/librarian/Books.tsx
mod Defs
mod Row
pub mod Creating
pub mod Editing
unfoldable pub use Defs.*
unfoldable pub use Row.*
