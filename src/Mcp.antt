-- ===== src/Mcp.antt =====
-- The tool protocol of `src/limitless_library/mcp_protocol.py`.
pub mod Messages
pub mod Requests
pub mod Dispatcher
pub mod Handle
pub mod Session
