-- ===== src/Validator/Create.antt =====
-- `_create_access_token` and `_create_refresh_token` of oauth2_provider/oauth2_validators.py: the rows
-- that they save, and the pair of them that `save_bearer_token` mints.
use django_oauth_toolkit.Prelude.{ℕ, String, Option, none, some, ◌==◌, find?}
use django_oauth_toolkit.Settings.{Env, Result, ok, err, integrity_error, invalid_grant, ◌>>=◌}
use django_oauth_toolkit.Models.Rows.{AccessToken, RefreshToken}
use django_oauth_toolkit.Models.Database.{
  Database, set_token_value, checksum_pre_save, insert_access, insert_refresh,
}
use django_oauth_toolkit.Validator.Request.{Request, TokenDict, resources, client_pk}

-- `_load_id_token`, given what jwcrypto says of the token.
abbrev pub load_id_token : Env → Database → Option String → Option ℕ
load_id_token env db none = none
load_id_token env db (some t) = elim (env.verified_jti t) [
  | none ↦ none
  | some j ↦ elim (find? (λ i. i.jti == j) db.id_tokens) [ none ↦ none | some i ↦ some i.pk ]
]

-- The row that `_create_access_token` saves.
unfoldable pub new_access :
    Env → ℕ → Request → TokenDict → String → Option ℕ → Database → AccessToken
unfolding set_token_value checksum_pre_save
new_access env expires request token scope source db =
    let value = set_token_value env.settings token.access_token in
    record {
      pk = db.next_pk;
      user = request.user;
      source_refresh_token = source;
      token = value.token;
      token_checksum = checksum_pre_save env.sha256 value.raw_token value.token "";
      id_token = load_id_token env db token.id_token;
      application = client_pk request;
      expires = expires;
      scope = scope;
      resource = resources request.resource;
    }

-- The family of a new refresh token: its predecessor's, or a fresh one.
abbrev pub family_of : Env → Option RefreshToken → Option ℕ
family_of env none = some env.uuid4
family_of env (some previous) = previous.token_family

-- The row that `_create_refresh_token` saves.
unfoldable pub new_refresh :
    Env → Request → String → ℕ → Option RefreshToken → ℕ → ℕ → Database → RefreshToken
unfolding set_token_value checksum_pre_save
new_refresh env request code access previous user application db =
    let value = set_token_value env.settings code in
    record {
      pk = db.next_pk;
      user = user;
      token = value.token;
      token_checksum = checksum_pre_save env.sha256 value.raw_token value.token "";
      application = application;
      access_token = some access;
      token_family = family_of env previous;
      resource = resources request.resource;
      revoked = none;
    }

-- An `IntegrityError` of the save becomes `InvalidGrantError`.
abbrev pub as_invalid_grant {ℓ} : {A : Type ℓ} → Result A → Result A
as_invalid_grant (ok a) = ok a
as_invalid_grant (err integrity_error) = err invalid_grant
as_invalid_grant (err e) = err e

-- The save of `_create_refresh_token`; both foreign keys are not null, so a request without a user
-- or a client fails it.
unfoldable pub create_for :
    Env
    → Request
    → String
    → ℕ
    → Option RefreshToken
    → Database
    → Option ℕ
    → Option ℕ
    → Result (RefreshToken × Database)
create_for env request code access previous db none application = err invalid_grant
create_for env request code access previous db (some user) none = err invalid_grant
create_for env request code access previous db (some user) (some application) =
    let row = new_refresh env request code access previous user application db in
    do db' ← as_invalid_grant (insert_refresh row db); ok (row, db')

-- `_create_refresh_token`
unfoldable pub create_refresh_token :
    Env → Request → String → ℕ → Option RefreshToken → Database → Result (RefreshToken × Database)
create_refresh_token env request code access previous db =
    create_for env request code access previous db request.user (client_pk request)

-- The source of a new access token is the refresh token that was presented.
abbrev pub source_of : Option RefreshToken → Option ℕ
source_of none = none
source_of (some r) = some r.pk

-- A new access token and a new refresh token bound to it.
unfoldable pub mint_pair :
    Env
    → ℕ
    → Request
    → TokenDict
    → String
    → String
    → Option RefreshToken
    → Database
    → Result Database
mint_pair env expires request token scope code previous db =
    let source = source_of previous in
    let access = new_access env expires request token scope source db in
    do
      db' ← insert_access access db
      (row, db'') ← create_refresh_token env request code access.pk previous db'
      ok db''
