-- ===== src/Dns.antt =====
-- The local DNS and the resolver (dns/).
pub mod Cache
pub mod Lookup
pub mod Resolver
