-- ===== src/Paging.antt =====
-- What the list pages share: the search box with its page number, the pager under the table, and a
-- list that is fetched anew whenever its query changes.
mod Buttons
mod Fetching
mod Order
pub mod Tracking
mod Rows
pub mod Bounds
unfoldable pub use Buttons.*
unfoldable pub use Fetching.*
pub use Rows.*
pub use Order.*
