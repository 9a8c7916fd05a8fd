-- ===== src/Validator/Bearer.antt =====
-- `save_bearer_token` of oauth2_provider/oauth2_validators.py: the access and refresh tokens that a
-- successful token request stores.
pub mod Mint
pub mod Issued
pub mod Stored
pub mod Rotates
pub mod Transaction
pub mod Roundtrip
pub mod Rotation
use mathlib.Core.Option.{get_or}
use django_oauth_toolkit.Prelude.{
  ℕ, ◌+◌, String, Option, none, some, ◌==◌, str_eq, if◌then◌else◌, find?, points_to,
}
use django_oauth_toolkit.Settings.{
  Env, Result, ok, err, does_not_exist, integrity_error, fatal_client_error, invalid_grant, ◌>>=◌,
}
use django_oauth_toolkit.Models.Rows.{AccessToken, RefreshToken}
use django_oauth_toolkit.Models.Database.{
  Database, find_access, find_refresh, successor, set_token_value, checksum_pre_save, insert_access,
  insert_refresh, save_access,
}
use django_oauth_toolkit.Models.Revoke.{revoke}
use django_oauth_toolkit.Validator.Request.{Request, TokenDict, resources, client_pk}
use django_oauth_toolkit.Validator.Create.{
  load_id_token, new_access, family_of, new_refresh, as_invalid_grant, create_for,
  create_refresh_token, source_of, mint_pair,
}
use django_oauth_toolkit.Validator.Resource.{check_and_set_request_resource}

-- Within the grace period the token that was minted before is answered again; it gets a new refresh
-- token if its own is gone.
unfoldable pub answer_again :
    Env
    → Request
    → TokenDict
    → String
    → AccessToken
    → Option RefreshToken
    → Database
    → Result (TokenDict × Database)
answer_again env request token code access previous db = do
  (existing, db') ← elim (find? (λ r. points_to r.access_token access.pk) db.refresh_tokens) [
    | some r ↦ ok (r, db)
    | none ↦ create_refresh_token env request code access.pk previous db
  ]
  ok (
    record token {
      access_token = access.token;
      refresh_token = some existing.token;
      scope = some access.scope;
    },
    db',
  )

-- Rotation, once the presented refresh token is locked: it is revoked, and a pair is minted unless
-- it was used before, in which case `previous_access` is what it minted.
unfoldable pub rotate_locked :
    Env
    → ℕ
    → Request
    → TokenDict
    → String
    → String
    → RefreshToken
    → Database
    → Option AccessToken
    → Result (TokenDict × Request × Database)
rotate_locked env expires request token scope code r db none = do
  db' ← mint_pair env expires request token scope code (some r) (revoke env r.pk db)
  ok (token, request, db')
rotate_locked env expires request token scope code r db (some access) = do
  (token', db') ← answer_again env request token code access (some r) (revoke env r.pk db)
  ok (token', request, db')

-- The branch that revokes the presented refresh token, for the row that is locked again.
unfoldable pub rotate :
    Env
    → ℕ
    → Request
    → TokenDict
    → String
    → String
    → Database
    → Option RefreshToken
    → Result (TokenDict × Request × Database)
rotate env expires request token scope code db none = err does_not_exist
rotate env expires request token scope code db (some r) =
    rotate_locked env expires (record request { refresh_token_instance = none }) token scope code r
      db (successor db r.pk)

-- The row that the branch which keeps the refresh token writes.
unfoldable pub renewed : Env → ℕ → Request → TokenDict → String → AccessToken → AccessToken
renewed env expires request token scope a =
    let value = set_token_value env.settings token.access_token in
    record a {
      user = request.user;
      scope = scope;
      expires = expires;
      token = value.token;
      token_checksum = checksum_pre_save env.sha256 value.raw_token value.token a.token_checksum;
      application = client_pk request;
      resource = resources request.resource;
    }

-- The branch that keeps the refresh token: the access token bound to it is written anew.
unfoldable pub renew : Env → ℕ → Request → TokenDict → String → ℕ → Database → Result Database
renew env expires request token scope k db = elim (find_access k db.access_tokens) [
  | none ↦ err does_not_exist
  | some a ↦ save_access (renewed env expires request token scope a) db
]

-- The choice between the branches for a presented refresh token, given the access token that the
-- request's copy of it is bound to.
unfoldable pub save_presented :
    Env
    → ℕ
    → Request
    → TokenDict
    → String
    → String
    → Database
    → RefreshToken
    → Option ℕ
    → Result (TokenDict × Request × Database)
save_presented env expires request token scope code db instance none =
    rotate env expires request token scope code db (find_refresh instance.pk db.refresh_tokens)
save_presented env expires request token scope code db instance (some k) =
    if env.settings.rotate_refresh_token
    then rotate env expires request token scope code db (find_refresh instance.pk db.refresh_tokens)
    else (do db' ← renew env expires request token scope k db; ok (token, request, db'))

-- A token dictionary with a refresh token.
unfoldable pub save_with_refresh :
    Env
    → ℕ
    → Request
    → TokenDict
    → String
    → String
    → Database
    → Option RefreshToken
    → Result (TokenDict × Request × Database)
save_with_refresh env expires request token scope code db none = do
  db' ← mint_pair env expires request token scope code none db
  ok (token, request, db')
save_with_refresh env expires request token scope code db (some instance) =
    save_presented env expires request token scope code db instance instance.access_token

-- `if refresh_token_code:`, which an empty text fails too.
abbrev pub given_code : Option String → Option String
given_code none = none
given_code (some code) = if str_eq code "" then none else some code

-- client_credentials tokens have no user
abbrev pub with_user : Request → Request
with_user request =
    if str_eq request.grant_type "client_credentials"
    then record request { user = none }
    else request

-- The tokens that are stored, given the value of the refresh token if there is one.
unfoldable pub store_tokens :
    Env
    → ℕ
    → Request
    → TokenDict
    → String
    → Database
    → Option String
    → Result (TokenDict × Request × Database)
store_tokens env expires request token scope db (some code) =
    save_with_refresh env expires request token scope code db request.refresh_token_instance
store_tokens env expires request token scope db none = do
  db' ← insert_access (new_access env expires request token scope none db) db
  ok (token, request, db')

-- The expiry of the access token.
abbrev pub expiry : Env → TokenDict → ℕ
expiry env token = env.now + get_or token.expires_in env.settings.access_token_expire_seconds

-- `_save_bearer_token`, given the scope of the token dictionary.
unfoldable pub save_scoped :
    Env → TokenDict → Request → Database → Option String → Result (TokenDict × Request × Database)
save_scoped env token request db none = err fatal_client_error
save_scoped env token request db (some scope) = do
  checked ← check_and_set_request_resource env request db
  store_tokens env (expiry env token) (with_user checked) token scope db
      (given_code token.refresh_token)

-- The result of a transaction: an error leaves the tables as they were.
abbrev pub atomic :
    Database → Result (TokenDict × Request × Database) → Result (TokenDict × Request) × Database
atomic db (ok (token, request, db')) = (ok (token, request), db')
atomic db (err e) = (err e, db)

-- `save_bearer_token`
unfoldable pub save_bearer_token :
    Env → TokenDict → Request → Database → Result (TokenDict × Request) × Database
save_bearer_token env token request db = atomic db (save_scoped env token request db token.scope)
