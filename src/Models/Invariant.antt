-- ===== src/Models/Invariant.antt =====
-- What holds of the token tables between requests, and that the table operations of
-- Models/Database and Models/Revoke keep it.
pub mod Defs
pub mod Deletes
pub mod Revokes
pub mod Family
pub mod Inserts
pub mod Spent
