-- ===== src/Models/Rows.antt =====
-- The models of oauth2_provider/models.py as rows: a foreign key is the primary key it refers to,
-- an instant is a number of seconds.
use django_oauth_toolkit.Prelude.{
  ℕ, String, Bool, true, not, ◌&&◌, Option, none, some, List, [], ◌∷◌, leb, all, elem,
}
use django_oauth_toolkit.Text.{split_words}

pub data ClientType : Type 0 where
  confidential public : ClientType

pub data GrantType : Type 0 where
  authorization_code device_code implicit password client_credentials openid_hybrid : GrantType

pub data TokenAuthMethod : Type 0 where
  unset_method none_method client_secret_basic client_secret_post : TokenAuthMethod
  client_secret_jwt private_key_jwt : TokenAuthMethod

pub record Application : Type 0 where
  pub pk : ℕ
  pub client_id : String
  pub redirect_uris : String
  pub client_type : ClientType
  pub authorization_grant_type : GrantType
  pub client_secret : String
  pub token_endpoint_auth_method : TokenAuthMethod
  pub require_pushed_authorization_requests : Option Bool

pub record Grant : Type 0 where
  pub pk : ℕ
  pub user : ℕ
  pub code : String
  pub application : ℕ
  pub expires : ℕ
  pub redirect_uri : String
  pub scope : String
  pub code_challenge : String
  pub code_challenge_method : String
  pub nonce : String
  pub resource : List String

pub record AccessToken : Type 0 where
  pub pk : ℕ
  pub user : Option ℕ
  pub source_refresh_token : Option ℕ
  pub token : String
  pub token_checksum : String
  pub id_token : Option ℕ
  pub application : Option ℕ
  pub expires : ℕ
  pub scope : String
  pub resource : List String

pub record RefreshToken : Type 0 where
  pub pk : ℕ
  pub user : ℕ
  pub token : String
  pub token_checksum : String
  pub application : ℕ
  pub access_token : Option ℕ
  pub token_family : Option ℕ
  pub resource : List String
  pub revoked : Option ℕ

pub record IdToken : Type 0 where
  pub pk : ℕ
  pub user : Option ℕ
  pub jti : ℕ
  pub application : Option ℕ
  pub expires : ℕ
  pub scope : String

-- A value of a JSON mapping of parameters: a text, or a list of texts.
pub data Parameter : Type 0 where
  text : String → Parameter
  texts : List String → Parameter

pub record PushedRequest : Type 0 where
  pub pk : ℕ
  pub request_uri : String
  pub client_id : String
  pub parameters : List (String × Parameter)
  pub expires : ℕ

-- `is_expired` of Grant, AccessToken, IDToken and PushedAuthorizationRequest: an instance that has
-- no deadline yet counts as expired, and so does the deadline itself.
unfoldable pub is_expired : ℕ → Option ℕ → Bool
is_expired now none = true
is_expired now (some expires) = leb expires now

-- `allow_scopes` of AccessToken and IDToken, over the row's `scope` column.
unfoldable pub allow_scopes : String → List String → Bool
allow_scopes scope [] = true
allow_scopes scope (s ∷ scopes) =
    let provided_scopes = split_words scope in all (λ r. elem r provided_scopes) (s ∷ scopes)

-- `is_valid` of AccessToken and IDToken.
unfoldable pub is_valid : ℕ → Option ℕ → String → List String → Bool
unfolding is_expired allow_scopes
is_valid now expires scope scopes = not (is_expired now expires) && allow_scopes scope scopes

-- `AbstractAccessToken.allows_audience`; the validator is the RESOURCE_SERVER_TOKEN_RESOURCE_VALIDATOR
-- setting, which may be null.
unfoldable pub allows_audience : Option (String → List String → Bool) → List String → String → Bool
allows_audience validator [] audience_uri = true
allows_audience none (r ∷ audiences) audience_uri = true
allows_audience (some validator) (r ∷ audiences) audience_uri =
    validator audience_uri (r ∷ audiences)
