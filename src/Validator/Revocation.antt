-- ===== src/Validator/Revocation.antt =====
-- `revoke_token` of oauth2_provider/oauth2_validators.py (RFC 7009).
pub mod Isolation
pub mod Scope
use django_oauth_toolkit.Prelude.{
  ℕ, String, Bool, ◌&&◌, Option, none, some, List, [], ◌∷◌, ◌==◌, str_eq, if◌then◌else◌, points_to,
  filter,
}
use django_oauth_toolkit.Settings.{Env}
use django_oauth_toolkit.Models.Rows.{AccessToken, RefreshToken}
use django_oauth_toolkit.Models.Database.{Database}
use django_oauth_toolkit.Models.Revoke.{revoke, revoke_access_token}
use django_oauth_toolkit.Validator.Request.{Request, client_pk}

-- A row that the lookup found, of either model.
pub data Token : Type 0 where
  access : AccessToken → Token
  refresh : RefreshToken → Token

-- `AccessToken.objects.filter(token_checksum=c, application_id=pk)`
abbrev pub access_matches : String → ℕ → List AccessToken → List Token
access_matches c application [] = []
access_matches c application (a ∷ rows) =
    let rest = access_matches c application rows in
    if str_eq a.token_checksum c && points_to a.application application
    then access a ∷ rest
    else rest

-- `RefreshToken.objects.filter(token_checksum=c, application_id=pk)`
abbrev pub refresh_matches : String → ℕ → List RefreshToken → List Token
refresh_matches c application [] = []
refresh_matches c application (r ∷ rows) =
    let rest = refresh_matches c application rows in
    if str_eq r.token_checksum c && r.application == application then refresh r ∷ rest else rest

-- The first model's rows, or the other's if there are none.
abbrev pub or_other : List Token → List Token → List Token
or_other [] other = other
or_other (t ∷ found) other = t ∷ found

-- The rows to revoke: the hint says which model is searched first, and any other hint is ignored.
unfoldable pub matches : Env → String → String → ℕ → Database → List Token
matches env token hint application db =
    let c = env.sha256 token in
    let of_access = access_matches c application db.access_tokens in
    let of_refresh = refresh_matches c application db.refresh_tokens in
    if str_eq hint "refresh_token"
    then or_other of_refresh of_access
    else or_other of_access of_refresh

abbrev pub revoke_one : Env → Token → Database → Database
revoke_one env (access a) db = revoke_access_token env a db
revoke_one env (refresh r) db = revoke env r.pk db

unfoldable pub revoke_all : Env → List Token → Database → Database
revoke_all env [] db = db
revoke_all env (t ∷ found) db = revoke_all env found (revoke_one env t db)

-- The rest of `revoke_token`, given the primary key of the request's client.
unfoldable pub revoke_of : Env → String → String → Database → Option ℕ → Database
revoke_of env token hint db none = db
revoke_of env token hint db (some application) =
    revoke_all env (matches env token hint application db) db

-- `revoke_token`
unfoldable pub revoke_token : Env → String → String → Request → Database → Database
revoke_token env token hint request db = revoke_of env token hint db (client_pk request)
