-- ===== src/Lib.antt =====
-- A model of Django OAuth Toolkit, the OAuth 2 provider of oauth2_provider/.
--
-- The program stores applications, authorization codes and tokens in a database
-- (oauth2_provider/models.py). oauthlib drives a validator
-- (oauth2_provider/oauth2_validators.py), which checks what a request presents, and issues and
-- revokes tokens in those tables. A resource server
-- (oauth2_provider/resource_server/validators.py) judges for which URIs a token is good.
--
-- Files:
--   Prelude, Text, Codes, Url: shared lists, tables and texts; Python's `str.split` and `urlsplit`.
--   Settings: the settings that the code reads, the environment of a request, errors and results.
--   Models/Rows: the rows of the models, with expiry, scopes and audiences. Models/Database: the
--     tables, lookups, deletes with SET_NULL and CASCADE, inserts with their unique constraints.
--     Models/Revoke: `revoke`, `revoke_family`, `revoke_access_token`. Models/Redirects:
--     `check_redirect_to_uri_allowed`, `is_origin_allowed`. Models/Cleanup: `clear_expired`.
--     Models/Invariant: what holds of the token tables between requests.
--   ResourceServer/Uris: `_parse_and_validate_uri`, `validate_resource_as_url_prefix`.
--     ResourceServer/Bearer: `validate_bearer_token` and the introspection client.
--   Validator/Request: the request and the token dictionary of oauthlib. Validator/Resource:
--     `_check_and_set_request_resource`. Validator/Refresh: `validate_refresh_token`.
--     Validator/Create: `_create_access_token`, `_create_refresh_token`. Validator/Bearer:
--     `save_bearer_token`, with a function for each of its branches. Validator/Revocation:
--     `revoke_token`. Validator/Code: authorization codes, from `_create_authorization_code` to
--     `invalidate_authorization_code`. Validator/Grants: grant and response types, and lookups.
--     Validator/Client: client authentication.
--   AuthorizationServer/Http: requests and dictionaries. AuthorizationServer/Par: par.py; Par/View: its
--     endpoint, and the redemption of a `request_uri` by the GET of
--     `AuthorizationView`; its POST, the consent form, makes no such check.
--     AuthorizationServer/Device: the device grants, their views as steps on the table, the polling
--     of `TokenView` up to oauthlib's token response, and the hook of core/utils.py that gives that
--     response its user.
--     AuthorizationServer/Assertions: the checks of verified client assertions.
--   Tests: example data, and the theorems applied to it.
--
-- A method that changes the database takes the tables and returns the new ones; one that raises
-- returns an error, and a transaction that raises leaves its tables. Instants are numbers of
-- seconds, and `timezone.now()` is read once for a request. A setting that is a number of seconds
-- may also be missing, negative or no number, where the code tells these apart; a `timedelta` or a
-- callable there is not modelled. SHA-256, the netloc check of `urlsplit`, `uuid4` and the
-- verification of ID tokens are parameters. The tables have the columns that the modelled code
-- reads. Also parameters are the password hashers, base64, the HTTP requests of an introspection,
-- the cache of client assertions, and what oauthlib and the lookups of client metadata documents
-- return. Loops are recursions over lists, but for the batches of `clear_expired`, which run on
-- fuel: more fuel than a table has rows is enough.
--
-- Not modelled: forms, templates, admin pages and other Django glue; locks, since a request is
-- handled as a whole; HTTP, signatures and keys; client registration, client metadata documents,
-- the authorization form, which issues codes on POST, and OpenID Connect.
pub mod Prelude
pub mod Text
pub mod Codes
pub mod Url
pub mod Settings
pub mod Models
pub mod ResourceServer
pub mod Validator
pub mod AuthorizationServer
pub mod Tests
