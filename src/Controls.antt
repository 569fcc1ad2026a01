-- ===== src/Controls.antt =====
-- frontend/src/components/Button.tsx, Badge.tsx, Input.tsx, Table.tsx and Card.tsx
pub mod Button
pub mod Badge
pub mod Input
pub mod Containers
