-- ===== src/ResourceServer/Uris.antt =====
-- The RFC 8707 resource indicators of oauth2_provider/resource_server/validators.py, with
-- `posixpath.normpath` of the Python library.
pub mod Prefix
use mathlib.Core.List.{reverse}
use django_oauth_toolkit.Prelude.{
  ℕ, String, Bool, true, false, not, ◌&&◌, ◌||◌, Option, none, some, List, [], ◌∷◌, ◌++◌, ◌==◌,
  if◌then◌else◌,
}
use django_oauth_toolkit.Codes.{Codes, codes, same, has, starts, rstrip, lower, split_on}
use django_oauth_toolkit.Settings.{Env, Result, ok, err, value_error, ◌>>=◌}
use django_oauth_toolkit.Url.{Split, urlsplit, hostname, port, has_userinfo}

pub record UriParts : Type 0 where
  pub scheme : Codes
  pub hostname : Codes
  pub port : Option ℕ
  pub path : Codes

-- `_SCHEME_DEFAULT_PORTS.get(scheme)`
abbrev pub default_port : Codes → Option ℕ
default_port scheme =
    if same scheme (codes "http")
    then some 80
    else if same scheme (codes "https")
    then some 443
    else none

abbrev is_up : Codes → Bool
is_up comp = same comp (codes "..")

-- One component in the loop of `normpath`; the stack has its top at the head.
abbrev norm_step : Bool → List Codes → Codes → List Codes
norm_step rooted stack comp =
    if same comp [] || same comp (codes ".")
    then stack
    else if not (is_up comp)
    then comp ∷ stack
    else elim stack [
      | [] ↦ (if rooted then [] else comp ∷ [])
      | top ∷ below ↦ (if is_up top then comp ∷ top ∷ below else below)
    ]

abbrev pub norm_from : Bool → List Codes → List Codes → List Codes
norm_from rooted stack [] = reverse stack
norm_from rooted stack (comp ∷ comps) = norm_from rooted (norm_step rooted stack comp) comps

abbrev join_slash : List Codes → Codes
join_slash [] = []
join_slash (c ∷ []) = c
join_slash (c ∷ d ∷ r) = c ++ (b'/' ∷ join_slash (d ∷ r))

-- One slash at the start, or the two that POSIX keeps apart.
abbrev initial_slashes : Codes → Codes
initial_slashes p =
    if starts p (codes "//") && not (starts p (codes "///"))
    then codes "//"
    else if starts p (codes "/")
    then codes "/"
    else []

-- `posixpath.normpath`
unfoldable pub normpath : Codes → Codes
normpath p =
    let (comp, comps) = split_on b'/' p in
    let slashes = initial_slashes p in
    let norm = slashes ++ join_slash (norm_from (not (same slashes [])) [] (comp ∷ comps)) in
    if same norm [] then codes "." else norm

abbrev or_slash : Codes → Codes
or_slash p = if same p [] then codes "/" else p

abbrev with_host : Split → Codes → Option UriParts
with_host parsed host = elim (port parsed) [
  | none ↦ none
  | some p ↦ some (record {
    scheme = lower parsed.scheme;
    hostname = lower host;
    port = elim p [ none ↦ default_port (lower parsed.scheme) | some n ↦ some n ];
    path = normpath (or_slash parsed.path);
  })
]

abbrev with_split : Codes → Split → Option UriParts
with_split uri parsed =
    if has_userinfo parsed
    then none
    else if not (same parsed.fragment []) || has b'#' uri
    then none
    else if same parsed.scheme []
    then none
    else elim (hostname parsed) [ none ↦ none | some host ↦ with_host parsed host ]

-- `_parse_and_validate_uri`; the call of `urlsplit` stands outside its `try`
unfoldable pub parse_and_validate_uri : Env → String → Result (Option UriParts)
parse_and_validate_uri env uri = elim (urlsplit env.netloc_ok (codes uri)) [
  | none ↦ err value_error
  | some parsed ↦ ok (with_split (codes uri) parsed)
]

abbrev pub same_port : Option ℕ → Option ℕ → Bool
same_port none none = true
same_port none (some q) = false
same_port (some p) none = false
same_port (some p) (some q) = p == q

abbrev pub same_origin : UriParts → UriParts → Bool
same_origin a b = same a.scheme b.scheme && same a.hostname b.hostname && same_port a.port b.port

-- `path.rstrip("/") + "/"`
abbrev pub directory : Codes → Codes
directory p = rstrip b'/' p ++ b'/' ∷ []

abbrev pub covers : UriParts → UriParts → Bool
covers request audience =
    same_origin request audience && starts (directory request.path) (directory audience.path)

abbrev pub covers? : UriParts → Option UriParts → Bool
covers? request none = false
covers? request (some audience) = covers request audience

-- The loop over the audiences.
unfoldable pub any_covers : Env → UriParts → List String → Result Bool
any_covers env request [] = ok false
any_covers env request (audience ∷ audiences) =
    let rest = any_covers env request audiences in
    do parts ← parse_and_validate_uri env audience; if covers? request parts then ok true else rest

-- `validate_resource_as_url_prefix`
unfoldable pub validate_resource_as_url_prefix : Env → String → List String → Result Bool
unfolding any_covers
validate_resource_as_url_prefix env request_uri [] = ok true
validate_resource_as_url_prefix env request_uri (audience ∷ audiences) = do
  parts ← parse_and_validate_uri env request_uri
  elim parts [ none ↦ ok false | some request ↦ any_covers env request (audience ∷ audiences) ]
