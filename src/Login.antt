-- ===== src/Login.antt =====
-- frontend/src/pages/Login.tsx
mod Defs
mod Laws
unfoldable pub use Defs.*
pub use Laws.*
