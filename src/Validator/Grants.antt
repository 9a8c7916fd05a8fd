-- ===== src/Validator/Grants.antt =====
-- Which grants and response types a client may use, and the lookups of an authorization code, in
-- oauth2_provider/oauth2_validators.py; the client's redirect URIs and grant type in
-- oauth2_provider/models.py. The scopes backend is not modelled.
pub mod Gates
use django_oauth_toolkit.Prelude.{
  ℕ, String, Bool, true, false, not, ◌&&◌, ◌||◌, Option, none, some, List, [], ◌∷◌, str_eq,
  if◌then◌else◌, find?, any, points_to,
}
use django_oauth_toolkit.Text.{split_words}
use django_oauth_toolkit.Settings.{
  Env, Settings, Result, ok, err, does_not_exist, missing_redirect_uri, ◌>>=◌,
}
use django_oauth_toolkit.Models.Rows.{
  Application, Grant, GrantType, authorization_code, device_code, implicit, password,
  client_credentials, openid_hybrid, RefreshToken, AccessToken,
}
use django_oauth_toolkit.Models.Database.{Database, find_access, successor}
use django_oauth_toolkit.Models.Redirects.{redirect_to_uri_allowed}
use django_oauth_toolkit.Validator.Resource.{find_grant}

abbrev pub same_grant : GrantType → GrantType → Bool
same_grant authorization_code authorization_code = true
same_grant device_code device_code = true
same_grant implicit implicit = true
same_grant password password = true
same_grant client_credentials client_credentials = true
same_grant openid_hybrid openid_hybrid = true
same_grant g h = false

-- `allows_grant_type`
unfoldable pub allows_grant_type : Application → List GrantType → Bool
allows_grant_type application grant_types =
    any (same_grant application.authorization_grant_type) grant_types

-- `default_redirect_uri`
unfoldable pub default_redirect_uri : Application → Result String
default_redirect_uri application = elim (split_words application.redirect_uris) [
  | [] ↦ err missing_redirect_uri
  | uri ∷ uris ↦ elim uris [ [] ↦ ok uri | v ∷ vs ↦ err missing_redirect_uri ]
]

-- `redirect_uri_allowed` of an application, which `validate_redirect_uri` calls.
unfoldable pub redirect_uri_allowed : Env → Application → String → Result Bool
redirect_uri_allowed env application uri =
    redirect_to_uri_allowed env uri (split_words application.redirect_uris)

-- `GRANT_TYPE_MAPPING`; none for a grant type that it does not have.
abbrev pub grant_type_mapping : String → Option (List GrantType)
grant_type_mapping grant_type =
    if str_eq grant_type "authorization_code"
    then some (authorization_code ∷ openid_hybrid ∷ [])
    else if str_eq grant_type "password"
    then some (password ∷ [])
    else if str_eq grant_type "client_credentials"
    then some (client_credentials ∷ [])
    else if str_eq grant_type "refresh_token"
    then some
        (authorization_code ∷ device_code ∷ password ∷ client_credentials ∷ openid_hybrid ∷ [])
    else if str_eq grant_type "urn:ietf:params:oauth:grant-type:device_code"
    then some (device_code ∷ [])
    else none

-- `validate_grant_type`; none if its assertion fails.
unfoldable pub validate_grant_type : Settings → String → Application → Option Bool
validate_grant_type s grant_type client = elim (grant_type_mapping grant_type) [
  | none ↦ none
  | some grant_types ↦
      let allowed = allows_grant_type client grant_types in
      some (
        if allowed && str_eq grant_type "password" && s.compliant_bcp_rfc9700_password_grant
        then false
        else allowed)
]

-- `_validate_implicit_response_type`
unfoldable pub validate_implicit_response_type : Settings → Application → Bool
validate_implicit_response_type s client =
    if not (allows_grant_type client (implicit ∷ []))
    then false
    else not s.compliant_bcp_rfc9700_implicit_grant

-- `validate_response_type`
unfoldable pub validate_response_type : Settings → String → Application → Bool
validate_response_type s response_type client =
    if str_eq response_type "code"
    then allows_grant_type client (authorization_code ∷ [])
    else if str_eq response_type "token"
    then validate_implicit_response_type s client
    else if str_eq response_type "id_token"
    then validate_implicit_response_type s client
    else if str_eq response_type "id_token token"
    then validate_implicit_response_type s client
    else if str_eq response_type "code id_token"
    then allows_grant_type client (openid_hybrid ∷ [])
    else if str_eq response_type "code token"
    then allows_grant_type client (openid_hybrid ∷ [])
    else if str_eq response_type "code id_token token"
    then allows_grant_type client (openid_hybrid ∷ [])
    else false

-- `s or None`
abbrev or_none : String → Option String
or_none s = if str_eq s "" then none else some s

-- `get_code_challenge`
unfoldable pub get_code_challenge : String → Option ℕ → Database → Result (Option String)
get_code_challenge code client db = elim (find_grant db code client) [
  | none ↦ err does_not_exist
  | some g ↦ ok (or_none g.code_challenge)
]

-- `get_code_challenge_method`
unfoldable pub get_code_challenge_method : String → Option ℕ → Database → Result (Option String)
get_code_challenge_method code client db = elim (find_grant db code client) [
  | none ↦ err does_not_exist
  | some g ↦ ok (or_none g.code_challenge_method)
]

-- `get_authorization_code_nonce`
unfoldable pub get_authorization_code_nonce : String → Database → Option String
get_authorization_code_nonce code db = elim (find? (λ g. str_eq g.code code) db.grants) [
  | none ↦ none
  | some g ↦ or_none g.nonce
]

-- The scope that `get_original_scopes` reads, given the access token of the presented refresh token:
-- none where the code returns an empty list.
unfoldable pub get_original_scopes : RefreshToken → Database → Option ℕ → Result (Option String)
get_original_scopes rt db none = elim (successor db rt.pk) [
  | none ↦ ok none
  | some a ↦ ok (some a.scope)
]
get_original_scopes rt db (some k) = elim (find_access k db.access_tokens) [
  | none ↦ err does_not_exist
  | some a ↦ ok (some a.scope)
]
