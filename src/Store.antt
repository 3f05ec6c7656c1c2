-- ===== src/Store.antt =====
-- Package internal/store.
pub mod Redis
pub mod Database
pub mod Preserves
pub mod AuthSessions
pub mod ApiTokens
pub mod PanelSettings
pub mod UserTokens
pub mod TrafficScope
pub mod UserMfa
pub mod LoginThrottle
pub mod ListeningPorts
