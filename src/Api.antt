-- ===== src/Api.antt =====
-- The HTTP and WebSocket side of archive/python-legacy/backend/app/api.
pub mod Admin
pub mod ApiKeys
pub mod KeyCrud
pub mod Streaming
pub mod Limits
pub mod Usage
pub mod Middleware
