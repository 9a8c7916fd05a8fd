-- ===== src/Settings.antt =====
-- The settings of oauth2_provider/settings.py that the modelled code reads, and the errors that
-- the modelled code raises.
use django_oauth_toolkit.Prelude.{ℕ, String, ◌≡◌, refl, Bool, Option, List}
use django_oauth_toolkit.Codes.{Codes}

-- A setting in seconds as a deployment may write it: `None`, a number that is not negative, the
-- negative number -(n + 1), or a value that is no number.
pub data Seconds : Type 0 where
  unset : Seconds
  seconds : ℕ → Seconds
  negative : ℕ → Seconds
  malformed : Seconds

pub record Settings : Type 0 where
  pub refresh_token_expire_seconds : Seconds
  pub refresh_token_grace_period_seconds : Seconds
  pub refresh_token_reuse_protection : Bool
  pub rotate_refresh_token : Bool
  pub clear_expired_tokens_batch_size : ℕ
  pub authorization_code_expire_seconds : ℕ
  pub access_token_expire_seconds : ℕ
  pub compliant_bcp_rfc9700_token_storage : Bool
  pub compliant_bcp_rfc9700_implicit_grant : Bool
  pub compliant_bcp_rfc9700_password_grant : Bool
  pub compliant_bcp_rfc9700_pkce_method : Bool
  pub par_request_uri_lifetime_seconds : ℕ
  pub require_pushed_authorization_requests : Bool
  pub par_enabled : Bool
  pub require_form_encoded_request_body : Bool
  pub allow_uri_wildcards : Bool
  pub allow_localhost_loopback : Bool
  pub allowed_schemes : List String

-- What a request is handled with, beside the database: the settings; the time (`timezone.now()`, in
-- seconds, read once for a request); the hexadecimal SHA-256 of a text; the netloc checks of
-- `urlsplit`; the next `uuid.uuid4()`; and what jwcrypto makes of an ID token: the `jti` of a token
-- whose signature and expiry hold under its application's key.
pub record Env : Type 0 where
  pub settings : Settings
  pub now : ℕ
  pub sha256 : String → String
  pub netloc_ok : Codes → Bool
  pub uuid4 : ℕ
  pub verified_jti : String → Option ℕ

pub data Error : Type 0 where
  improperly_configured type_error value_error does_not_exist integrity_error : Error
  fatal_client_error invalid_grant invalid_request missing_redirect_uri : Error
  invalid_target : String → Error

-- What a call comes to, if it keeps no state: it raises, or it returns.
pub data Result {ℓ} (X : Type ℓ) : Type ℓ where
  err : Error → Result X
  ok : X → Result X

pub ok-injective {ℓ} : {X : Type ℓ} {x y : X} → ok x ≡ ok y → x ≡ y
ok-injective h = cc

infixl 5 ◌>>=◌
abbrev pub ◌>>=◌ {κ ℓ} : {X : Type κ} {Y : Type ℓ} → Result X → (X → Result Y) → Result Y
err raised >>= next = err raised
ok x >>= next = next x

-- A block that returned has returned from its first step.
pub >>=-eq-ok {κ ℓ} :
    {X : Type κ} {Y : Type ℓ} (first : Result X) (next : X → Result Y) {y : Y}
    → (first >>= next) ≡ ok y
    → (x : X) × (first ≡ ok x) × (next x ≡ ok y)
>>=-eq-ok (err raised) next h = cc
>>=-eq-ok (ok x) next h = (x, refl, h)
