-- ===== src/Acl.antt =====
-- The access control list of the server (server/acl/acl.go): keys, their limits and their usage.
pub mod State
pub mod Quota
pub mod Access
pub mod Change
pub mod Storage
pub mod Isolation
pub mod Lifecycle
pub mod Refinement
