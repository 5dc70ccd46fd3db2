-- ===== src/Server.antt =====
-- The HTTP handlers of internal/server.
pub mod Address
pub mod FileApi
pub mod FileUrl
pub mod Inference
pub mod Json
pub mod Proxy
pub mod Slots
