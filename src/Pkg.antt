-- ===== src/Pkg.antt =====
-- internal/pkg: the helpers that the modules share.
pub mod Db
pub mod Jwt
pub mod Pagination
pub mod Event
pub mod Response
pub mod Validator
pub mod Storage
pub mod Cache
pub mod Crypto
pub mod Socketio
pub mod Ocr
pub mod Export
pub mod Logger
