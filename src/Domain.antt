-- ===== src/Domain.antt =====
-- The domain types and rules (internal/domain).
pub mod Role
pub mod Player
