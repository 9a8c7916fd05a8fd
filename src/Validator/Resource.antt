-- ===== src/Validator/Resource.antt =====
-- `_validate_resource_uris` and `_check_and_set_request_resource` of
-- oauth2_provider/oauth2_validators.py (RFC 8707 resource indicators at the token endpoint).
pub mod Narrow
use django_oauth_toolkit.Prelude.{
  ℕ, String, Bool, true, false, ◌&&◌, Option, none, some, List, [], ◌∷◌, str_eq, if◌then◌else◌,
  find?, elem, points_to,
}
use django_oauth_toolkit.Text.{split_words}
use django_oauth_toolkit.Settings.{Env, Result, ok, err, invalid_target, ◌>>=◌}
use django_oauth_toolkit.Models.Rows.{Grant}
use django_oauth_toolkit.Models.Database.{Database}
use django_oauth_toolkit.ResourceServer.Uris.{parse_and_validate_uri}
use django_oauth_toolkit.Validator.Request.{Request, Resource, absent, single, several, client_pk}

-- `_validate_resource_uris`
unfoldable pub validate_resource_uris : Env → List String → Result (Unit {0})
validate_resource_uris env [] = ok tt
validate_resource_uris env (res ∷ rest) =
    let later = validate_resource_uris env rest in
    do
      parts ← parse_and_validate_uri env res
      elim parts [ none ↦ err (invalid_target res) | some p ↦ later ]

-- The values of the body's parameter `resource`, in order.
abbrev body_values : List (String × String) → List String
body_values [] = []
body_values ((key, value) ∷ body) =
    let rest = body_values body in if str_eq key "resource" then value ∷ rest else rest

-- `resource.strip()` is empty exactly if the text has no word.
abbrev is_blank : String → Bool
is_blank s = elim (split_words s) [ [] ↦ true | w ∷ ws ↦ false ]

-- oauthlib keeps the last of repeated values; the body has them all.
abbrev pub requested : Resource → List (String × String) → List String
requested absent body = []
requested (several rs) body = rs
requested (single r) body = elim (body_values body) [
  | [] ↦ (if is_blank r then [] else r ∷ [])
  | v ∷ vs ↦ elim vs [ [] ↦ (if is_blank r then [] else r ∷ []) | w ∷ ws ↦ v ∷ w ∷ ws ]
]

-- Every requested resource must be among the granted ones; the first that is not is reported.
unfoldable pub narrow : List String → List String → Result (Unit {0})
narrow granted [] = ok tt
narrow granted (res ∷ rest) =
    let later = narrow granted rest in if elem res granted then later else err (invalid_target res)

-- `Grant.objects.filter(code=request.code, application=request.client).first()`
unfoldable pub find_grant : Database → String → Option ℕ → Option Grant
find_grant db code application =
    find? (λ g. str_eq g.code code && points_to application g.application) db.grants

abbrev pub grant_resource : Option Grant → List String
grant_resource none = []
grant_resource (some g) = g.resource

-- The resources that the token may have, from the requested ones and those that were granted: a
-- request that names none inherits the granted ones, and they are validated again.
unfoldable pub inherit : Env → List String → List String → Result (List String)
unfolding narrow
inherit env [] [] = ok []
inherit env (r ∷ rs) [] = ok (r ∷ rs)
inherit env [] (g ∷ gs) = do _ ← validate_resource_uris env (g ∷ gs); ok (g ∷ gs)
inherit env (r ∷ rs) (g ∷ gs) = do _ ← narrow (g ∷ gs) (r ∷ rs); ok (r ∷ rs)

-- The resources that the grant type's own record, if it has one, lets the request have.
unfoldable pub inherited : Env → Request → Database → List String → Result (List String)
unfolding inherit find_grant
inherited env request db wanted =
    if str_eq request.grant_type "authorization_code"
    then inherit env wanted (grant_resource (find_grant db request.code (client_pk request)))
    else if str_eq request.grant_type "refresh_token"
    then elim request.refresh_token_instance [
      | none ↦ ok wanted
      | some instance ↦ inherit env wanted instance.resource
    ]
    else ok wanted

-- `_check_and_set_request_resource`
unfoldable pub check_and_set_request_resource : Env → Request → Database → Result Request
check_and_set_request_resource env request db = do
  let wanted = requested request.resource request.decoded_body
  _ ← validate_resource_uris env wanted
  rs ← inherited env request db wanted
  ok (record request { resource = several rs })
