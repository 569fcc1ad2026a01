-- ===== src/Forms.antt =====
-- The checks that the forms make before they send anything, and the errors they show.
mod Fields
pub mod Validation
unfoldable pub use Fields.*
