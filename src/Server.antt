-- ===== src/Server.antt =====
-- The gRPC server and its accounting (server/server.go and server/stats.go).
pub mod Stats
pub mod Stream
pub mod Start
