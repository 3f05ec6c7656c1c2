-- ===== src/Examples.antt =====
-- Concrete inputs, on which the properties of the parts are applied.
mod BoundPorts
pub mod Servers
mod Throttle
mod Sessions
mod Mfa
mod Scopes
mod Codes
mod Tokens
mod Requests
mod Links
mod Views
mod Oauth
mod Signed
mod SignIn
mod LockedOut
mod Unsigned
mod Ports
mod Audit
