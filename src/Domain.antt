-- ===== src/Domain.antt =====
-- The records and rules of internal/domain.
pub mod Principal
pub mod Account
pub mod Post
