-- ===== src/Joint.antt =====
-- The frontend against the server: what a page shows when the server's own answers come back.
pub mod Lending
pub mod BookForms
pub mod Walk
pub mod Sessions
pub mod Csrf
pub mod Filters
pub mod Figures
pub mod DueDates
pub mod Buttons
pub mod Offers
pub mod Dashboard
