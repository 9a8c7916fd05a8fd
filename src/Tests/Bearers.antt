-- ===== src/Tests/Bearers.antt =====
-- The theorems on bearer tokens at a resource server, on the example token and a cached one.
use django_oauth_toolkit.Prelude.{◌≡◌, ◌≢◌, refl, true, none, some, [], ◌∷◌}
use django_oauth_toolkit.Models.Rows.{
  AccessToken, is_expired, allow_scopes, is_valid, allows_audience,
}
use django_oauth_toolkit.Models.Database.{Database}
use django_oauth_toolkit.ResourceServer.Bearer.{
  Content, no_audience, answered, ResourceServer, authentication, defaults, update_or_create,
  cache_token, judged_token, unknown, rejected, accepted, check_valid, validate_bearer_token,
}
use django_oauth_toolkit.ResourceServer.Bearer.Stores.{IsUntouched}
use django_oauth_toolkit.ResourceServer.Bearer.Cache.{IsCached, cache_token-IsCached}
use django_oauth_toolkit.ResourceServer.Bearer.Accepts.{
  IsAcceptable, validate_bearer_token-IsAcceptable, validate_bearer_token_known,
}
use django_oauth_toolkit.Tests.{env, access, db, db-IsWellFormed}

abbrev content : Content
content = record {
  active = true;
  username = some "ann";
  exp = some 5000;
  scope = some "read";
  aud = no_audience;
}

abbrev server : ResourceServer
server = record {
  introspection_url = some "https://as.test/introspect";
  auth_token = some "secret";
  introspection_credentials = none;
  jwt_client_id = none;
  jwt_private_key = none;
  jwt_audience = none;
  token_caching_seconds = 60;
  make_client_assertion = λ c k a. none;
  introspect = λ url token how. answered 200 content;
  get_or_create_user = λ u. 9;
  audience_validator = none;
  is_usable = λ a. true;
}

-- The row that is cached for the token "remote".
abbrev remote : AccessToken
remote = record {
  pk = 12;
  user = some 9;
  source_refresh_token = none;
  token = "remote";
  token_checksum = "remote";
  id_token = none;
  application = none;
  expires = 160;
  scope = "read";
  resource = [];
}

abbrev with_remote : Database
with_remote = record db { access_tokens = access ∷ remote ∷ []; next_pk = 13 }

cached : cache_token server env "remote" (answered 200 content) db ≡ (some remote, with_remote)
unfolding cache_token update_or_create defaults
cached = refl

cache_token_example :
    IsCached server env "remote" (answered 200 content) db with_remote remote
    × IsUntouched "remote" db with_remote
cache_token_example =
    cache_token-IsCached server env "remote" (answered 200 content) db with_remote remote
      db-IsWellFormed.keyed_access cached

bearer_run :
    validate_bearer_token server env "remote" [] (some "https://api.test/v1?x") db
    ≡ (accepted remote, with_remote)
unfolding validate_bearer_token judged_token authentication cache_token update_or_create defaults
    check_valid is_valid is_expired allow_scopes allows_audience
bearer_run = refl

bearer_example :
    IsAcceptable server env "remote" [] (some "https://api.test/v1?x") db with_remote remote
bearer_example =
    validate_bearer_token-IsAcceptable server env "remote" [] (some "https://api.test/v1?x") db
      with_remote remote bearer_run

known_error_example :
    (validate_bearer_token server env "at" ("write" ∷ []) (some "https://api.test/v1") db).0
    ≢ rejected unknown
known_error_example =
    validate_bearer_token_known server env "at" ("write" ∷ []) (some "https://api.test/v1") db
