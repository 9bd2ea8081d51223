-- ===== src/Rbac.antt =====
-- internal/rbac: permissions, roles and policies, their storage, and the engine that resolves them.
pub mod Permission
pub mod Role
pub mod Policy
pub mod Storage
pub mod Engine
mod Tests
