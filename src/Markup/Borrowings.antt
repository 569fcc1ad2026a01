-- ===== src/Markup/Borrowings.antt =====
-- The pages of frontend/src/pages/librarian/Borrowings.tsx and member/Borrowings.tsx.
pub mod Filters
pub mod Desk
pub mod Columns
pub mod Offers
