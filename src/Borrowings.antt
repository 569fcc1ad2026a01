-- ===== src/Borrowings.antt =====
-- frontend/src/pages/librarian/Borrowings.tsx and frontend/src/pages/member/Borrowings.tsx
mod Query
mod Counter
pub mod Headers
pub mod Returns
unfoldable pub use Query.*
unfoldable pub use Counter.*
