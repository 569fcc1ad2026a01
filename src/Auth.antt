-- ===== src/Auth.antt =====
-- frontend/src/context/AuthContext.tsx, with `ensureCsrfToken` of frontend/src/api/client.ts.
mod Reducer
mod Effects
mod Provider
mod Laws
mod Sessions
unfoldable pub use Reducer.*
unfoldable pub use Effects.*
unfoldable pub use Provider.*
pub use Laws.*
pub use Sessions.*
