-- ===== src/Server.antt =====
-- The HTTP server of anki-addon/server.py.
pub mod Range
pub mod Response
pub mod Audio
pub mod Query
pub mod Path
pub mod Resource
pub mod Dispatch
