-- ===== src/Auth.antt =====
-- 60_jwt_auth/main.go: access tokens that are signed, refresh tokens that are stored, and the
-- routes that they protect.
pub mod Tokens
pub mod Api
mod Tests
