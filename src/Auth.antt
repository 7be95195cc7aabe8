-- ===== src/Auth.antt =====
-- internal/modules/auth: users, roles, permissions and their audit log.
pub mod Dto
pub mod Repository
pub mod Module
pub mod Service
pub mod Overrides
pub mod Handler
pub mod Routes
