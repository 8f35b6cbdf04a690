-- ===== src/Mcp.antt =====
-- sentinel/mcp: the registry of tools (server.py) and `postgres.query` (tools/postgres.py).
pub mod Keyword
pub mod Server
pub mod Query
