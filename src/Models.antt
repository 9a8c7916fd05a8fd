-- ===== src/Models.antt =====
-- oauth2_provider/models.py: the tables, their row operations, revocation and cleanup.
pub mod Rows
pub mod Database
pub mod Revoke
pub mod Invariant
pub mod Redirects
pub mod Cleanup
