-- ===== src/BorrowButton.antt =====
-- frontend/src/components/BorrowButton.tsx
mod Defs
pub mod Once
pub mod Messages
unfoldable pub use Defs.*
