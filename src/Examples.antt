-- ===== src/Examples.antt =====
-- Runs of the code on small inputs.
pub mod Data
pub mod Keys
pub mod Lists
pub mod Requests
pub mod Streams
pub mod Commands
pub mod Tunnel
pub mod Names
pub mod Proxy
pub mod Pipes
pub mod Startup
