-- ===== src/Api.antt =====
-- Package internal/api.
pub mod Params
pub mod TokenScopes
pub mod SignIn
pub mod MfaSettings
pub mod AuthMiddleware
pub mod ViewerScope
pub mod ClientIp
pub mod Audit
