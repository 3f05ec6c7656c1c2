-- ===== src/Remotesvc.antt =====
-- Package internal/remotesvc.
pub mod BoundPorts
