-- ===== src/Models/Redirects.antt =====
-- `check_redirect_to_uri_allowed`, `redirect_to_uri_allowed` and `is_origin_allowed` of
-- oauth2_provider/models.py.
pub mod Exact
pub mod Origin
use django_oauth_toolkit.Prelude.{
  ℕ, String, Bool, true, false, not, ◌&&◌, ◌||◌, Option, none, some, List, [], ◌∷◌, ◌==◌,
  if◌then◌else◌, any,
}
use django_oauth_toolkit.Codes.{Codes, codes, same, has, ends}
use django_oauth_toolkit.Url.{Split, urlsplit, hostname, port, has_userinfo}
use django_oauth_toolkit.Settings.{Env, Result, ok, err, value_error, ◌>>=◌}

-- Why a registered URI does not allow the requested one, or why none can.
pub data Reason : Type 0 where
  requested_fragment requested_userinfo registered_fragment registered_userinfo : Reason
  scheme_differs wildcard_differs hostname_differs port_differs path_differs : Reason
  query_presence_differs query_differs : Reason

abbrev pub split : Env → String → Result Split
split env uri = elim (urlsplit env.netloc_ok (codes uri)) [ none ↦ err value_error | some u ↦ ok u ]

abbrev pub same_host : Option Codes → Option Codes → Bool
same_host none none = true
same_host none (some h) = false
same_host (some g) none = false
same_host (some g) (some h) = same g h

-- The part of a wildcard host behind its "*".
abbrev pub wildcard : Option Codes → Option Codes
wildcard none = none
wildcard (some []) = none
wildcard (some (c ∷ rest)) = if c == b'*' then some rest else none

abbrev ends_with : Option Codes → Codes → Bool
ends_with none rest = false
ends_with (some host) rest = ends host rest

abbrev pub exact_host : Option Codes → Option Codes → Option Reason
exact_host registered requested =
    if same_host registered requested then none else some hostname_differs

-- The hostname check, given the registered host's wildcard if wildcards are on.
abbrev pub host_reason : Option Codes → Option Codes → Option Codes → Option Reason
host_reason (some rest) registered requested =
    if ends_with requested rest then none else some wildcard_differs
host_reason none registered requested = exact_host registered requested

abbrev pub active_wildcard : Bool → Option Codes → Option Codes
active_wildcard false registered = none
active_wildcard true registered = wildcard registered

abbrev pub is_loopback : Bool → Split → Bool
is_loopback localhost u =
    same u.scheme (codes "http")
    && (same_host (hostname u) (some (codes "127.0.0.1"))
        || same_host (hostname u) (some (codes "::1"))
        || (localhost && same_host (hostname u) (some (codes "localhost"))))

abbrev pub port_of : Split → Result (Option ℕ)
port_of u = elim (port u) [ none ↦ err value_error | some p ↦ ok p ]

abbrev pub same_port : Option ℕ → Option ℕ → Bool
same_port none none = true
same_port none (some q) = false
same_port (some p) none = false
same_port (some p) (some q) = p == q

-- The port check, which a loopback URI does not have.
unfoldable pub port_ok : Bool → Split → Split → Result Bool
port_ok true registered requested = ok true
port_ok false registered requested = do
  p ← port_of registered
  q ← port_of requested
  ok (same_port p q)

-- The checks of path and query.
unfoldable pub path_reason : Codes → Split → Codes → Split → Option Reason
path_reason registered a requested u =
    if not (same a.path u.path)
    then some path_differs
    else if has b'?' registered && not (has b'?' requested)
        || not (has b'?' registered) && has b'?' requested
    then some query_presence_differs
    else if not (same a.query u.query)
    then some query_differs
    else none

-- The checks from the hostname on.
unfoldable pub rest_reason :
    Env → Codes → Split → Codes → Split → Option Reason → Result (Option Reason)
rest_reason env registered a requested u (some reason) = ok (some reason)
rest_reason env registered a requested u none = do
  good ← port_ok (is_loopback env.settings.allow_localhost_loopback a) a u
  ok (if good then path_reason registered a requested u else some port_differs)

-- The checks of one registered URI, once it is split.
unfoldable pub split_reason : Env → Codes → Split → Codes → Split → Result (Option Reason)
split_reason env registered a requested u =
    if has_userinfo a
    then ok (some registered_userinfo)
    else if not (same a.scheme u.scheme)
    then ok (some scheme_differs)
    else rest_reason env registered a requested u (
        host_reason (active_wildcard env.settings.allow_uri_wildcards (hostname a)) (hostname a)
          (hostname u))

-- One turn of the loop: none if the registered URI allows the requested one.
unfoldable pub mismatch : Env → String → Codes → Split → Result (Option Reason)
mismatch env registered requested u =
    if has b'#' (codes registered)
    then ok (some registered_fragment)
    else (do a ← split env registered; split_reason env (codes registered) a requested u)

-- What a turn makes of the result of the later ones.
abbrev pub turn :
    String
    → Option Reason
    → Result (Bool × List (Option String × Reason))
    → Result (Bool × List (Option String × Reason))
turn registered none rest = ok (true, [])
turn registered (some reason) rest = do
  (allowed, reasons) ← rest
  ok (if allowed then (true, []) else (false, (some registered, reason) ∷ reasons))

-- The loop over the registered URIs.
unfoldable pub first_match :
    Env → List String → Codes → Split → Result (Bool × List (Option String × Reason))
first_match env [] requested u = ok (false, [])
first_match env (registered ∷ uris) requested u =
    let rest = first_match env uris requested u in
    do found ← mismatch env registered requested u; turn registered found rest

-- `check_redirect_to_uri_allowed`
unfoldable pub check_redirect_to_uri_allowed :
    Env → String → List String → Result (Bool × List (Option String × Reason))
check_redirect_to_uri_allowed env uri allowed_uris = do
  u ← split env uri
  if has b'#' (codes uri)
      then ok (false, (none, requested_fragment) ∷ [])
      else if has_userinfo u
      then ok (false, (none, requested_userinfo) ∷ [])
      else first_match env allowed_uris (codes uri) u

-- `redirect_to_uri_allowed`
unfoldable pub redirect_to_uri_allowed : Env → String → List String → Result Bool
redirect_to_uri_allowed env uri allowed_uris = do
  (allowed, reasons) ← check_redirect_to_uri_allowed env uri allowed_uris
  ok allowed

-- The loop over the allowed origins.
unfoldable pub origin_listed : Env → Split → List String → Result Bool
origin_listed env u [] = ok false
origin_listed env u (allowed_origin ∷ origins) =
    let rest = origin_listed env u origins in
    do
      a ← split env allowed_origin
      if same a.scheme u.scheme && same a.netloc u.netloc then ok true else rest

-- `is_origin_allowed`; `urlparse` has the scheme and the netloc of `urlsplit`.
unfoldable pub is_origin_allowed : Env → String → List String → Result Bool
is_origin_allowed env origin allowed_origins = do
  u ← split env origin
  if not (any (λ s. same u.scheme (codes s)) env.settings.allowed_schemes)
      then ok false
      else origin_listed env u allowed_origins
