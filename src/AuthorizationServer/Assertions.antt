-- ===== src/AuthorizationServer/Assertions.antt =====
-- Client assertions, oauth2_provider/authorization_server/client_assertions.py: the algorithms of a
-- client, and the checks of claims whose signature holds, with their order in `_authenticate`.
-- Instants and lifetimes are whole seconds. The accepted audiences come from the settings.
pub mod Replay
use Prim.Native.Char.{code}
use django_oauth_toolkit.Prelude.{
  ℕ, suc, ◌+◌, ◌-◌, String, Bool, true, false, not, ◌&&◌, ◌||◌, Option, none, some, List, [], ◌∷◌,
  ◌==◌, ltb, leb, str_eq, if◌then◌else◌, any, elem,
}
use django_oauth_toolkit.Models.Rows.{
  TokenAuthMethod, unset_method, none_method, client_secret_basic, client_secret_post,
  client_secret_jwt, private_key_jwt,
}

pub data Failure : Type 0 where
  exp_not_number too_far iat_not_number issued_in_future wrong_audience : Failure
  jti_not_text assertion_expired replayed : Failure

-- A claim that should be a number.
pub data NumericClaim : Type 0 where
  not_there not_number : NumericClaim
  number : ℕ → NumericClaim

-- Verified claims; an audience or an identifier that is no text is none.
pub record Claims : Type 0 where
  pub exp : NumericClaim
  pub iat : NumericClaim
  pub aud : List (Option String)
  pub jti : Option String

-- The CLIENT_ASSERTION settings.
pub record AssertionSettings : Type 0 where
  pub private_key_jwt_algs : List String
  pub client_secret_jwt_algs : List String
  pub leeway : ℕ
  pub max_lifetime : ℕ

-- Django's cache: `add` writes a key that is not held, for a number of seconds.
pub record Cache : Type 1 where
  pub State : Type 0
  pub add : String → ℕ → ℕ → State → Bool × State

-- `_allowed_algs`; none is an error.
unfoldable pub allowed_algs : AssertionSettings → TokenAuthMethod → Option (List String)
allowed_algs s private_key_jwt = some s.private_key_jwt_algs
allowed_algs s client_secret_jwt = some s.client_secret_jwt_algs
allowed_algs s unset_method = none
allowed_algs s none_method = none
allowed_algs s client_secret_basic = none
allowed_algs s client_secret_post = none

abbrev pub check_iat : AssertionSettings → ℕ → NumericClaim → Option Failure
check_iat s now not_there = none
check_iat s now not_number = some iat_not_number
check_iat s now (number iat) = if ltb (now + s.leeway) iat then some issued_in_future else none

abbrev pub check_exp : AssertionSettings → ℕ → NumericClaim → Option Failure
check_exp s now not_there = some exp_not_number
check_exp s now not_number = some exp_not_number
check_exp s now (number exp) =
    if ltb (now + s.max_lifetime + s.leeway) exp then some too_far else none

-- The first failure of two checks.
abbrev pub and_then : Option Failure → Option Failure → Option Failure
and_then none next = next
and_then (some f) next = some f

-- `_check_times`
unfoldable pub check_times : AssertionSettings → ℕ → Claims → Option Failure
check_times s now claims = and_then (check_exp s now claims.exp) (check_iat s now claims.iat)

-- `value.rstrip("/")`; 47 is the slash.
abbrev pub normalize_audience : String → String
normalize_audience String.[] = ""
normalize_audience (String.◌∷◌ c s) =
    let rest = normalize_audience s in
    if code c == 47 && str_eq rest "" then "" else String.◌∷◌ c rest

abbrev pub is_accepted : List String → Option String → Bool
is_accepted accepted none = false
is_accepted accepted (some aud) = elem (normalize_audience aud) accepted

-- `_check_audience`
unfoldable pub check_audience : List String → Claims → Option Failure
check_audience accepted claims =
    if any (is_accepted accepted) claims.aud then none else some wrong_audience

-- `cache.add` of the identifier, until the assertion has expired; `key` is the prefix and the digest
-- of the client and the identifier.
unfoldable pub remember :
    (cache : Cache)
    → AssertionSettings
    → String
    → ℕ
    → ℕ
    → cache.State
    → Option Failure × cache.State
remember cache s key now exp state =
    if leb (exp + s.leeway) now
    then (some assertion_expired, state)
    else (let (fresh, state') = cache.add key (suc (exp + s.leeway - now)) now state in
        (if fresh then none else some replayed, state'))

-- `_check_jti_replay`; `exp` is a number here, which `_check_times` has checked.
unfoldable pub check_jti_replay :
    (cache : Cache)
    → (String → String)
    → AssertionSettings
    → ℕ
    → ℕ
    → Option String
    → cache.State
    → Option Failure × cache.State
check_jti_replay cache key s now exp none state = (some jti_not_text, state)
check_jti_replay cache key s now exp (some jti) state =
    if str_eq jti "" then (some jti_not_text, state) else remember cache s (key jti) now exp state

abbrev pub exp_or_zero : NumericClaim → ℕ
exp_or_zero not_there = 0
exp_or_zero not_number = 0
exp_or_zero (number exp) = exp

-- The end of `_authenticate`, for verified claims.
unfoldable pub check_claims :
    (cache : Cache)
    → (String → String)
    → AssertionSettings
    → List String
    → ℕ
    → Claims
    → cache.State
    → Option Failure × cache.State
check_claims cache key s accepted now claims state =
    elim (and_then (check_times s now claims) (check_audience accepted claims)) [
      | some f ↦ (some f, state)
      | none ↦ check_jti_replay cache key s now (exp_or_zero claims.exp) claims.jti state
    ]
