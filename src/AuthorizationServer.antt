-- ===== src/AuthorizationServer.antt =====
-- oauth2_provider/authorization_server/, the endpoints of the authorization server.
pub mod Http
pub mod Par
pub mod Device
pub mod Assertions
