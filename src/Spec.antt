-- ===== src/Spec.antt =====
-- Shared pieces of client and server (spec/): byte helpers, connections and pipes.
pub mod Types
pub mod Tools
pub mod Conn
pub mod Pipe
