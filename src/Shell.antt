-- ===== src/Shell.antt =====
-- The frame of the application: frontend/src/App.tsx, frontend/src/components/RoleRoute.tsx and the
-- route table of frontend/src/main.tsx.
mod Gate
mod Laws
unfoldable pub use Gate.*
pub use Laws.*
