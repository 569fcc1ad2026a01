-- ===== src/Api.antt =====
-- frontend/src/api/client.ts and the shape of the answers that the pages read. The server and axios
-- are not modelled: an answer is a value of `Reply`, and a `Server` gives the answer of each call,
-- which may depend on all the calls made before it.
mod Replies
mod Requests
unfoldable pub use Replies.*
pub use Requests.*
