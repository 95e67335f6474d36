-- ===== src/EdgeCache.antt =====
-- The edge proxy and its response cache, projects/09-edge-cache-cdn/edge.
pub mod Response
pub mod Elements
pub mod Store
pub mod Origin
pub mod Proxy
pub mod Coalescer
