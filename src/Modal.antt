-- ===== src/Modal.antt =====
-- frontend/src/components/Modal.tsx
mod Defs
pub mod Escape
unfoldable pub use Defs.*
