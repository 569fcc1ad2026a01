-- ===== src/Backend.antt =====
-- The server (app/models, app/services and app/controllers): tables as lists of rows, the rules of
-- lending, and a controller's action as a function of the signed-in user and the tables.
mod Tables
mod Lending
mod Catalogue
mod Membership
mod Listing
mod Sessions
mod Search
mod Directory
mod Index
mod Figures
mod Tops
pub mod Seeds
pub mod Shelved
pub mod Requests
pub mod Integrity
pub mod Pages
pub mod Listed
pub mod Members
pub mod Upkeep
pub mod Reachable
pub mod Access
pub mod Roles
pub mod Eligible
pub mod Late
pub mod Passwords
pub mod Race
pub mod Overlap
pub mod Stock
pub mod Shelves
pub mod Rows
pub mod Clock
pub mod Capacity
pub mod Counting
unfoldable pub use Tables.*
unfoldable pub use Lending.*
unfoldable pub use Catalogue.*
unfoldable pub use Membership.*
unfoldable pub use Listing.*
unfoldable pub use Sessions.*
unfoldable pub use Search.*
unfoldable pub use Directory.*
unfoldable pub use Index.*
unfoldable pub use Figures.*
unfoldable pub use Tops.*
