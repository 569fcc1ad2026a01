-- ===== src/Markup.antt =====
-- What the pages of frontend/src/pages render, as trees of elements with their handlers.
pub mod Nodes
pub mod Parts
pub mod MemberItems
pub mod MemberDashboard
pub mod LibrarianDashboard
pub mod Tables
pub mod Clicks
pub mod Borrowings
pub mod MemberBooks
pub mod Members
pub mod Books
pub mod Forms
pub mod BorrowButton
