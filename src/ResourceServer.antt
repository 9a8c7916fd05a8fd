-- ===== src/ResourceServer.antt =====
-- oauth2_provider/resource_server: what a resource server checks of a request.
pub mod Uris
pub mod Bearer
