-- ===== src/Tests/Endpoints.antt =====
-- The theorems on revocation requests, codes, response types, redirect URIs, origins and audiences
-- at work on the example data.
use django_oauth_toolkit.Prelude.{arith, some, String, ◌≡◌, refl, true, false, List, [], ◌∷◌, elem}
use django_oauth_toolkit.Settings.{ok}
use django_oauth_toolkit.Url.{urlsplit, hostname, port, has_userinfo}
use django_oauth_toolkit.Models.Invariant.Defs.{IsWellFormed}
use django_oauth_toolkit.Models.Redirects.{
  port_ok, path_reason, rest_reason, split_reason, mismatch, first_match,
  check_redirect_to_uri_allowed,
}
use django_oauth_toolkit.Models.Redirects.{origin_listed, is_origin_allowed}
use django_oauth_toolkit.Models.Redirects.Origin.{IsListed, is_origin_allowed_sound}
use django_oauth_toolkit.Models.Redirects.Exact.{IsAllowedBy, check_redirect_to_uri_allowed_exact}
use django_oauth_toolkit.ResourceServer.Uris.{
  validate_resource_as_url_prefix, any_covers, parse_and_validate_uri, normpath,
}
use django_oauth_toolkit.ResourceServer.Uris.Prefix.{
  IsCovered, validate_resource_as_url_prefix_sound,
}
use django_oauth_toolkit.Models.Database.{Database}
use django_oauth_toolkit.Validator.Code.{
  new_grant, insert_grant, create_grant, create_authorization_code, validate_code,
  invalidate_authorization_code,
}
use django_oauth_toolkit.Validator.Code.Use.{
  IsInvalid, created_code_valid, invalidate_authorization_code_once,
}
use django_oauth_toolkit.Validator.Revocation.{revoke_token}
use django_oauth_toolkit.Validator.Revocation.Isolation.{IsIsolated}
use django_oauth_toolkit.Validator.Revocation.Scope.{
  revoke_token-IsIsolated, revoke_token-IsWellFormed,
}
use django_oauth_toolkit.Tests.{env, db, db-IsWellFormed, request}

other_clients_example : IsIsolated 1 db (revoke_token env "rt" "refresh_token" request db)
other_clients_example =
    revoke_token-IsIsolated env "rt" "refresh_token" request db 1 db-IsWellFormed refl

revoke_token-IsWellFormed_example : IsWellFormed (λ s. s) (revoke_token env "at" "" request db)
revoke_token-IsWellFormed_example = revoke_token-IsWellFormed env "at" "" request db db-IsWellFormed

abbrev registered : List String
registered = "https://a.test/other" ∷ "https://a.test/cb?x=1" ∷ []

redirect_run : check_redirect_to_uri_allowed env "https://a.test/cb?x=1" registered ≡ ok (true, [])
unfolding check_redirect_to_uri_allowed first_match mismatch split_reason rest_reason path_reason
    port_ok urlsplit hostname port has_userinfo
redirect_run = refl

redirect_example :
    (c : String) × (elem c registered ≡ true) × IsAllowedBy env "https://a.test/cb?x=1" c
redirect_example =
    check_redirect_to_uri_allowed_exact env "https://a.test/cb?x=1" registered [] refl redirect_run

prefix_run :
    validate_resource_as_url_prefix env "https://API.test:443/v1/users" ("https://api.test/v1" ∷ [])
    ≡ ok true
unfolding validate_resource_as_url_prefix any_covers parse_and_validate_uri normpath urlsplit
    hostname port has_userinfo
prefix_run = refl

food_run :
    validate_resource_as_url_prefix env "https://api.test/food-blog" ("https://api.test/foo" ∷ [])
    ≡ ok false
unfolding validate_resource_as_url_prefix any_covers parse_and_validate_uri normpath urlsplit
    hostname port has_userinfo
food_run = refl

prefix_example : IsCovered env "https://API.test:443/v1/users" ("https://api.test/v1" ∷ [])
prefix_example =
    validate_resource_as_url_prefix_sound env "https://API.test:443/v1/users" "https://api.test/v1"
      [] prefix_run

abbrev with_code : Database
with_code = record db { grants = new_grant env request "code" 5 1 db ∷ []; next_pk = 13 }

created_run : create_authorization_code env request "code" db ≡ ok with_code
unfolding create_authorization_code create_grant insert_grant
created_run = refl

created_code_example :
    ((validate_code env "code" (some 1) request with_code).0 ≡ true)
    × ((validate_code env "code" (some 1) request with_code).1.user ≡ some 5)
created_code_example =
    created_code_valid env env request request "code" db with_code created_run (omega arith)

invalidated_run :
    invalidate_authorization_code "code" (some 1) with_code ≡ ok (record db { next_pk = 13 })
unfolding invalidate_authorization_code new_grant
invalidated_run = refl

once_example : IsInvalid "code" (some 1) (record db { next_pk = 13 })
once_example =
    invalidate_authorization_code_once "code" (some 1) with_code (record db { next_pk = 13 })
      invalidated_run

origin_run :
    is_origin_allowed env "https://a.test/x" ("https://b.test" ∷ "https://a.test" ∷ []) ≡ ok true
unfolding is_origin_allowed origin_listed urlsplit
origin_run = refl

origin_example : IsListed env "https://a.test/x" ("https://b.test" ∷ "https://a.test" ∷ [])
origin_example =
    is_origin_allowed_sound env "https://a.test/x" ("https://b.test" ∷ "https://a.test" ∷ [])
      origin_run
