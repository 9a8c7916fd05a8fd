-- ===== src/Tests.antt =====
-- The data that the examples run on: one client with an access token and its refresh token.
pub mod Tokens
pub mod Endpoints
pub mod Upkeep
pub mod Pushing
pub mod Polling
pub mod Logins
pub mod Bearers
pub mod Assertions
use django_oauth_toolkit.Prelude.{
  ℕ, String, true, false, ◌≡◌, refl, ◌<◌, inl, inr, Option, none, some, List, [], ◌∷◌, arith,
}
use django_oauth_toolkit.Settings.{Settings, Env, seconds, unset}
use django_oauth_toolkit.Models.Rows.{
  Application, confidential, authorization_code, client_secret_basic, AccessToken, RefreshToken,
}
use django_oauth_toolkit.Models.Database.{Database}
use django_oauth_toolkit.Models.Invariant.Defs.{IsWellFormed}
use django_oauth_toolkit.Validator.Request.{Request, TokenDict, absent}

abbrev pub settings : Settings
settings = record {
  refresh_token_expire_seconds = seconds 1000;
  refresh_token_grace_period_seconds = seconds 0;
  refresh_token_reuse_protection = true;
  rotate_refresh_token = true;
  clear_expired_tokens_batch_size = 2;
  authorization_code_expire_seconds = 60;
  access_token_expire_seconds = 36000;
  compliant_bcp_rfc9700_token_storage = false;
  compliant_bcp_rfc9700_implicit_grant = false;
  compliant_bcp_rfc9700_password_grant = false;
  compliant_bcp_rfc9700_pkce_method = false;
  par_request_uri_lifetime_seconds = 60;
  require_pushed_authorization_requests = false;
  par_enabled = true;
  require_form_encoded_request_body = true;
  allow_uri_wildcards = false;
  allow_localhost_loopback = false;
  allowed_schemes = "https" ∷ [];
}

-- Hashing is the identity here.
abbrev pub env : Env
env = record {
  settings = settings;
  now = 100;
  sha256 = λ s. s;
  netloc_ok = λ n. true;
  uuid4 = 7;
  verified_jti = λ t. none;
}

abbrev pub client : Application
client = record {
  pk = 1;
  client_id = "client";
  redirect_uris = "https://a.test/cb";
  client_type = confidential;
  authorization_grant_type = authorization_code;
  client_secret = "secret";
  token_endpoint_auth_method = client_secret_basic;
  require_pushed_authorization_requests = none;
}

abbrev pub access : AccessToken
access = record {
  pk = 10;
  user = some 5;
  source_refresh_token = none;
  token = "at";
  token_checksum = "at";
  id_token = none;
  application = some 1;
  expires = 200;
  scope = "read";
  resource = "https://api.test/v1" ∷ [];
}

abbrev pub refresh : RefreshToken
refresh = record {
  pk = 11;
  user = 5;
  token = "rt";
  token_checksum = "rt";
  application = 1;
  access_token = some 10;
  token_family = some 3;
  resource = "https://api.test/v1" ∷ [];
  revoked = none;
}

abbrev pub db : Database
db = record {
  applications = client ∷ [];
  grants = [];
  access_tokens = access ∷ [];
  refresh_tokens = refresh ∷ [];
  id_tokens = [];
  pushed_requests = [];
  next_pk = 12;
}

pub db-IsWellFormed : IsWellFormed (λ s. s) db
db-IsWellFormed = record {
  is_sealed = (inr refl, tt);
  detached = (inl refl, tt);
  linked = ((access, refl, refl), tt);
  sourced = (tt, tt);
  keyed_access = (refl, tt);
  keyed_refresh = (refl, tt);
  fresh_access = (omega arith, tt);
  fresh_refresh = (omega arith, tt);
}

-- The same tables, after the refresh token was used once.
abbrev pub used : Database
used = record db {
  access_tokens = record access { pk = 12; source_refresh_token = some 11 } ∷ [];
  refresh_tokens =
      record refresh { access_token = none; revoked = some 50 }
      ∷ record refresh { pk = 13; token = "rt2"; token_checksum = "rt2"; access_token = some 12 }
      ∷ [];
  next_pk = 14;
}

pub used-IsWellFormed : IsWellFormed (λ s. s) used
used-IsWellFormed = record {
  is_sealed = (inr refl, (inr refl, tt));
  detached = (inr refl, (inl refl, tt));
  linked = (tt, ((record access { pk = 12; source_refresh_token = some 11 }, refl, refl), tt));
  sourced = ((record refresh { access_token = none; revoked = some 50 }, refl, refl, refl), tt);
  keyed_access = (refl, tt);
  keyed_refresh = (refl, (refl, tt));
  fresh_access = (omega arith, tt);
  fresh_refresh = (omega arith, (omega arith, tt));
}

-- A token request, and what oauthlib answers it with.
abbrev pub request : Request
request = record {
  client = some client;
  user = some 5;
  grant_type = "authorization_code";
  code = "";
  scopes = "read" ∷ [];
  refresh_token = "";
  refresh_token_instance = none;
  resource = absent;
  decoded_body = [];
  redirect_uri = "";
  code_challenge = none;
  code_challenge_method = none;
  nonce = none;
  authorization = none;
  client_id = some "client";
  client_secret = some "secret";
  client_assertion = none;
  client_assertion_type = none;
}

abbrev pub refreshing : Request
refreshing = record request {
  grant_type = "refresh_token";
  refresh_token = "rt";
  refresh_token_instance = some refresh;
}

abbrev pub token : TokenDict
token = record {
  access_token = "at3";
  refresh_token = some "rt3";
  scope = some "read";
  expires_in = none;
  id_token = none;
}
