-- ===== src/MeshProxy.antt =====
-- The proxy of projects/04-service-mesh-proxy.
pub mod Breaker
pub mod Balancer
mod Tests
