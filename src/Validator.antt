-- ===== src/Validator.antt =====
-- oauth2_provider/oauth2_validators.py: the request validator that oauthlib calls.
pub mod Request
pub mod Resource
pub mod Refresh
pub mod Grants
pub mod Client
pub mod Code
pub mod Create
pub mod Bearer
pub mod Revocation
