-- ===== src/Auth.antt =====
-- Package internal/auth.
pub mod Totp
pub mod OauthState
pub mod Jwt
