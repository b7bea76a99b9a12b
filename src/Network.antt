-- ===== src/Network.antt =====
-- The network server (src/network/, include/nebulakv/network/).
pub mod BoundedExecutor
