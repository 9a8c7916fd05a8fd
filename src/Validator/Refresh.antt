-- ===== src/Validator/Refresh.antt =====
-- `validate_refresh_token` and `get_original_scopes` of oauth2_provider/oauth2_validators.py.
pub mod Verdict
pub mod Reuse
pub mod Repudiation
use django_oauth_toolkit.Prelude.{
  ℕ, suc, ◌+◌, String, Bool, true, false, not, ◌&&◌, Option, none, some, leb, ◌==◌, if◌then◌else◌,
  is_some,
}
use django_oauth_toolkit.Settings.{
  Env, Seconds, unset, seconds, negative, malformed, Result, ok, err, type_error, ◌>>=◌,
}
use django_oauth_toolkit.Models.Rows.{Application, AccessToken, RefreshToken}
use django_oauth_toolkit.Models.Database.{Database, bound_access, successor, find_refresh_checksum}
use django_oauth_toolkit.Models.Revoke.{revoke_family, refresh_token_expire_timedelta}
use django_oauth_toolkit.Validator.Request.{Request}

-- `rt.revoked <= timezone.now() - timedelta(seconds=grace)`, with the subtraction on the other side;
-- `timedelta` takes numbers only.
unfoldable pub grace_expired : Seconds → ℕ → ℕ → Result Bool
grace_expired (seconds n) revoked now = ok (leb (revoked + n) now)
grace_expired (negative n) revoked now = ok (leb revoked (now + suc n))
grace_expired unset revoked now = err type_error
grace_expired malformed revoked now = err type_error

-- `AccessToken.objects.filter(source_refresh_token=rt).exists()`
abbrev pub superseded : Database → RefreshToken → Bool
superseded db rt = is_some (successor db rt.pk)

-- Reuse protection: the sweep of the family, if the setting asks for it.
unfoldable pub on_reuse : Env → RefreshToken → Database → Database
on_reuse env rt db =
    if env.settings.refresh_token_reuse_protection then revoke_family env rt.token_family db else db

-- `expire_delta and rt.access_token.expires + expire_delta <= timezone.now()`
abbrev pub outlived : Option ℕ → ℕ → ℕ → Bool
outlived none expires now = false
outlived (some delta) expires now = leb (expires + delta) now

-- The check of a refresh token that is not revoked: is it still good?
unfoldable pub live_ok : Env → Option AccessToken → Result Bool
live_ok env none = ok false
live_ok env (some a) = do
  delta ← refresh_token_expire_timedelta env.settings.refresh_token_expire_seconds
  ok (not (outlived delta a.expires env.now))

-- What a passing check leaves on the request.
abbrev pub attach : String → RefreshToken → Request → Request
attach refresh_token rt request = record request {
  user = some rt.user;
  refresh_token = refresh_token;
  refresh_token_instance = some rt;
}

-- A token that passes is accepted for its own client, and leaves the first tables; one that does not
-- pass is refused, and leaves the second.
abbrev pub verdict :
    Bool
    → Application
    → RefreshToken
    → Request
    → Request
    → Database
    → Database
    → Bool × Request × Database
verdict true client rt before after db swept = (rt.application == client.pk, after, db)
verdict false client rt before after db swept = (false, before, swept)

-- Whether the row is good, given its `revoked` column: a revoked one only within the grace period,
-- and if it was used to mint a successor.
unfoldable pub row_ok : Env → Database → RefreshToken → Option ℕ → Result Bool
row_ok env db rt none = live_ok env (bound_access db rt)
row_ok env db rt (some revoked) = do
  expired ← grace_expired env.settings.refresh_token_grace_period_seconds revoked env.now
  ok (not expired && superseded db rt)

-- The tables after a refusal.
unfoldable pub after_refusal : Env → RefreshToken → Database → Option ℕ → Database
after_refusal env rt db none = db
after_refusal env rt db (some revoked) = on_reuse env rt db

-- The checks after the lookup.
unfoldable pub validate_found :
    Env
    → String
    → Application
    → RefreshToken
    → Request
    → Database
    → Result (Bool × Request × Database)
validate_found env refresh_token client rt request db = do
  good ← row_ok env db rt rt.revoked
  let swept = after_refusal env rt db rt.revoked
  ok (verdict good client rt request (attach refresh_token rt request) db swept)

-- `validate_refresh_token`: the verdict, the request and the tables that it leaves.
unfoldable pub validate_refresh_token :
    Env → String → Application → Request → Database → Result (Bool × Request × Database)
validate_refresh_token env refresh_token client request db =
    elim (find_refresh_checksum db (env.sha256 refresh_token)) [
      | none ↦ ok (false, request, db)
      | some rt ↦ validate_found env refresh_token client rt request db
    ]
