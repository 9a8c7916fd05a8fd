-- ===== src/Url.antt =====
-- `urllib.parse.urlsplit` of the Python library and the properties of its result, over the code
-- points of an ASCII URL. The checks that the library makes of a netloc (brackets that hold an IP
-- address, characters under NFKC) depend on its version and are the parameter `netloc_ok`.
use django_oauth_toolkit.Prelude.{
  ℕ, Bool, not, ◌&&◌, ◌||◌, Option, none, some, [], ◌∷◌, ◌++◌, leb, ◌==◌, if◌then◌else◌, all,
  filter,
}
use django_oauth_toolkit.Codes.{Codes, same, has, partition, behind_last, lower, is_digit, number}

pub record Split : Type 0 where
  pub scheme : Codes
  pub netloc : Codes
  pub path : Codes
  pub query : Codes
  pub fragment : Codes

abbrev is_alpha : ℕ → Bool
is_alpha c = (leb b'a' c && leb c b'z') || (leb b'A' c && leb c b'Z')

abbrev is_scheme_char : ℕ → Bool
is_scheme_char c = is_alpha c || is_digit c || c == b'+' || c == b'-' || c == b'.'

-- leading control characters and spaces go
abbrev lstrip_controls : Codes → Codes
lstrip_controls [] = []
lstrip_controls (c ∷ s) = let rest = lstrip_controls s in if leb c 32 then rest else c ∷ s

-- and so do tabs and line ends anywhere
abbrev clean : Codes → Codes
clean s = filter (λ c. not (c == 9 || c == 10 || c == 13)) (lstrip_controls s)

-- the scheme, in lower case, and the rest
abbrev split_scheme : Codes → Codes × Codes
split_scheme [] = ([], [])
split_scheme (c ∷ s) =
    let (before, behind) = partition b':' (c ∷ s) in
    elim behind [
      | none ↦ ([], c ∷ s)
      | some rest ↦
          if is_alpha c && all is_scheme_char before then (lower before, rest) else ([], c ∷ s)
    ]

-- a netloc ends at the first of "/?#"
abbrev take_netloc : Codes → Codes × Codes
take_netloc [] = ([], [])
take_netloc (c ∷ s) =
    let (netloc, rest) = take_netloc s in
    if c == b'/' || c == b'?' || c == b'#' then ([], c ∷ s) else (c ∷ netloc, rest)

abbrev split_netloc : Codes → Codes × Codes
split_netloc [] = ([], [])
split_netloc (c ∷ []) = ([], c ∷ [])
split_netloc (c ∷ d ∷ s) = if c == b'/' && d == b'/' then take_netloc s else ([], c ∷ d ∷ s)

abbrev or_empty : Option Codes → Codes
or_empty none = []
or_empty (some s) = s

-- none: the library raises ValueError
unfoldable pub urlsplit : (Codes → Bool) → Codes → Option Split
urlsplit netloc_ok url =
    let (scheme, rest) = split_scheme (clean url) in
    let (netloc, rest') = split_netloc rest in
    let (rest'', fragment) = partition b'#' rest' in
    let (path, query) = partition b'?' rest'' in
    if netloc_ok netloc
    then some (record {
      scheme = scheme;
      netloc = netloc;
      path = path;
      query = or_empty query;
      fragment = or_empty fragment;
    })
    else none

-- The host and the port of a netloc, as texts.
abbrev host_info : Codes → Codes × Codes
host_info netloc =
    let info = behind_last b'@' netloc in
    let (plain, plain_port) = partition b':' info in
    let (before, bracketed) = partition b'[' info in
    elim bracketed [
      | none ↦ (plain, or_empty plain_port)
      | some inside ↦
          let (host, behind) = partition b']' inside in
          let (between, port) = partition b':' (or_empty behind) in (host, or_empty port)
    ]

abbrev lower_host : Codes → Codes × Option Codes → Codes
lower_host host (name, none) = lower host
lower_host host (name, some zone) = lower name ++ b'%' ∷ zone

-- `.hostname`: none if it is empty
unfoldable pub hostname : Split → Option Codes
hostname u =
    let (host, port) = host_info u.netloc in
    if same host [] then none else some (lower_host host (partition b'%' host))

-- `.port`: an outer none for ValueError, an inner one for no port
unfoldable pub port : Split → Option (Option ℕ)
port u =
    let (host, text) = host_info u.netloc in
    if same text []
    then some none
    else if all is_digit text && leb (number text) 65535
    then some (some (number text))
    else none

-- `.username is not None`, which is `.password is not None or …` too
unfoldable pub has_userinfo : Split → Bool
has_userinfo u = has b'@' u.netloc
