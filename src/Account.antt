-- ===== src/Account.antt =====
-- frontend/src/pages/Account.tsx
mod Defs
mod Laws
unfoldable pub use Defs.*
pub use Laws.*
