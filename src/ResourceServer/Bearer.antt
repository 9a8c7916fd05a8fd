-- ===== src/ResourceServer/Bearer.antt =====
-- Bearer tokens at a resource server: `ResourceServerValidatorMixin` of
-- oauth2_provider/resource_server/validators.py, and `_set_oauth2_error_on_request` of
-- oauth2_validators.py. AUTHENTICATION_SERVER_EXP_TIME_ZONE is UTC here, and `exp` is a number.
pub mod Accepts
pub mod Stores
pub mod Cache
use Prim.Native.Char.{code}
use django_oauth_toolkit.Prelude.{
  ℕ, ◌+◌, String, Bool, true, false, not, ◌&&◌, ◌||◌, Option, none, some, List, [], ◌∷◌, ◌++◌, ◌==◌,
  leb, str_eq, if◌then◌else◌, is_some, find?, update_where,
}
use django_oauth_toolkit.Settings.{Env}
use django_oauth_toolkit.Models.Rows.{
  Application, AccessToken, is_expired, allow_scopes, is_valid, allows_audience,
}
use django_oauth_toolkit.Models.Database.{Database}

-- How the resource server authenticates to the introspection endpoint.
pub data Authentication : Type 0 where
  bearer : String → Authentication
  basic : String → String → Authentication
  client_assertion : String → String → Authentication

-- The `aud` claim.
pub data Audience : Type 0 where
  no_audience malformed_audience : Audience
  one_audience : String → Audience
  audiences : List String → Audience

-- The JSON answer; `active` is whether the claim is `True`.
pub record Content : Type 0 where
  pub active : Bool
  pub username : Option String
  pub exp : Option ℕ
  pub scope : Option String
  pub aud : Audience

pub data Introspected : Type 0 where
  unreachable not_json : Introspected
  answered : ℕ → Content → Introspected

-- The RESOURCE_SERVER settings, and what is not modelled: the HTTP request, the signing of client
-- assertions, the users, and `is_usable`.
pub record ResourceServer : Type 0 where
  pub introspection_url : Option String
  pub auth_token : Option String
  pub introspection_credentials : Option (String × String)
  pub jwt_client_id : Option String
  pub jwt_private_key : Option String
  pub jwt_audience : Option String
  pub token_caching_seconds : ℕ
  pub make_client_assertion : String → String → String → Option String
  pub introspect : String → String → Authentication → Introspected
  pub get_or_create_user : String → ℕ
  pub audience_validator : Option (String → List String → Bool)
  pub is_usable : Application → Bool

-- A setting that is a text, if it is set to one that is not empty.
abbrev pub given : Option String → Option String
given none = none
given (some s) = if str_eq s "" then none else some s

-- `_build_introspection_client_assertion`
unfoldable pub build_introspection_client_assertion : ResourceServer → Option (String × String)
build_introspection_client_assertion r = elim (given r.jwt_client_id) [
  | none ↦ none
  | some client_id ↦ elim (given r.jwt_private_key) [
    | none ↦ none
    | some private_key ↦ elim (given r.jwt_audience) [
      | none ↦ none
      | some audience ↦ elim (r.make_client_assertion client_id private_key audience) [
        | none ↦ none
        | some assertion ↦ some (client_id, assertion)
      ]
    ]
  ]
]

-- The token has precedence, then the credentials, then an assertion.
unfoldable pub authentication : ResourceServer → Option Authentication
authentication r = elim (given r.auth_token) [
  | some token ↦ some (bearer token)
  | none ↦ elim r.introspection_credentials [
    | some (client_id, client_secret) ↦ some (basic client_id client_secret)
    | none ↦ elim (build_introspection_client_assertion r) [
      | some (client_id, assertion) ↦ some (client_assertion client_id assertion)
      | none ↦ none
    ]
  ]
]

-- The expiry of the cached token.
abbrev pub capped : ℕ → Option ℕ → ℕ
capped limit none = limit
capped limit (some exp) = if leb exp limit then exp else limit

-- The `resource` of the cached token; a malformed claim is rejected.
abbrev pub resource_of : Audience → Option (List String)
resource_of no_audience = some []
resource_of (one_audience a) = some (a ∷ [])
resource_of (audiences l) = some l
resource_of malformed_audience = none

abbrev pub text_of : Option String → String
text_of none = ""
text_of (some s) = s

abbrev pub user_of : ResourceServer → Option String → Option ℕ
user_of r none = none
user_of r (some username) = some (r.get_or_create_user username)

-- The columns that `update_or_create` writes.
unfoldable pub defaults :
    ResourceServer → Env → String → Content → List String → AccessToken → AccessToken
defaults r env token content aud a = record a {
  token = if env.settings.compliant_bcp_rfc9700_token_storage then "" else token;
  user = user_of r content.username;
  application = none;
  scope = text_of content.scope;
  expires = capped (env.now + r.token_caching_seconds) content.exp;
  resource = aud;
}

-- A new row, before the defaults.
abbrev pub blank : ℕ → String → AccessToken
blank pk checksum = record {
  pk = pk;
  user = none;
  source_refresh_token = none;
  token = "";
  token_checksum = checksum;
  id_token = none;
  application = none;
  expires = 0;
  scope = "";
  resource = [];
}

abbrev pub find_checksum : String → Database → Option AccessToken
find_checksum checksum db = find? (λ a. str_eq a.token_checksum checksum) db.access_tokens

-- `AccessToken.objects.update_or_create`
unfoldable pub update_or_create :
    String → (AccessToken → AccessToken) → Database → AccessToken × Database
update_or_create checksum write db = elim (find_checksum checksum db) [
  | some a ↦ (
    write a,
    record db { access_tokens = update_where (λ b. b.pk == a.pk) write db.access_tokens },
  )
  | none ↦
      let a = write (blank db.next_pk checksum) in
      (a, record db { access_tokens = db.access_tokens ++ a ∷ []; next_pk = db.next_pk + 1 })
]

abbrev pub saved : AccessToken × Database → Option AccessToken × Database
saved (a, db) = (some a, db)

-- `_get_token_from_authentication_server`, from the answer on.
unfoldable pub cache_token :
    ResourceServer → Env → String → Introspected → Database → Option AccessToken × Database
cache_token r env token unreachable db = (none, db)
cache_token r env token not_json db = (none, db)
cache_token r env token (answered status content) db =
    if not (status == 200)
    then (none, db)
    else if not content.active
    then (none, db)
    else elim (resource_of content.aud) [
      | none ↦ (none, db)
      | some aud ↦ saved (update_or_create (env.sha256 token) (defaults r env token content aud) db)
    ]

-- `_load_access_token`
abbrev pub load_access_token : Env → String → Database → Option AccessToken
load_access_token env token db = find_checksum (env.sha256 token) db

abbrev pub is_good : Env → List String → Option AccessToken → Bool
is_good env scopes none = false
is_good env scopes (some a) = is_valid env.now (some a.expires) a.scope scopes

-- The token that is judged: the stored one if it is good, or what the endpoint says of it.
unfoldable pub judged_token :
    ResourceServer → Env → String → List String → Database → Option AccessToken × Database
judged_token r env token scopes db =
    let stored = load_access_token env token db in
    if is_good env scopes stored then (stored, db) else elim (given r.introspection_url) [
      | none ↦ (stored, db)
      | some url ↦ elim (authentication r) [
        | none ↦ (stored, db)
        | some how ↦ cache_token r env token (r.introspect url token how) db
      ]
    ]

-- `s.split("?")[0]`; 63 is the question mark.
abbrev pub before_query : String → String
before_query String.[] = ""
before_query (String.◌∷◌ c s) =
    let rest = before_query s in if code c == 63 then "" else String.◌∷◌ c rest

pub data Refusal : Type 0 where
  no_token invalid expired insufficient_scope unknown wrong_resource unusable : Refusal

-- An accepted token gives the request its client, its user and its scopes.
pub data Answer : Type 0 where
  rejected : Refusal → Answer
  accepted : AccessToken → Answer

-- `_set_oauth2_error_on_request`
unfoldable pub oauth2_error : Env → List String → Option AccessToken → Refusal
oauth2_error env scopes none = invalid
oauth2_error env scopes (some a) =
    if is_expired env.now (some a.expires)
    then expired
    else if not (allow_scopes a.scope scopes)
    then insufficient_scope
    else unknown

-- `access_token.application`
abbrev pub application_of : Database → Option ℕ → Option Application
application_of db none = none
application_of db (some pk) = find? (λ a. a.pk == pk) db.applications

abbrev pub usable_application : ResourceServer → Option Application → Bool
usable_application r none = true
usable_application r (some a) = r.is_usable a

-- The checks of a token that is valid; one without resources allows every audience.
unfoldable pub check_valid : ResourceServer → Option String → AccessToken → Database → Answer
check_valid r uri a db =
    if not (allows_audience r.audience_validator a.resource (before_query (text_of uri)))
    then rejected wrong_resource
    else if not (usable_application r (application_of db a.application))
    then rejected unusable
    else accepted a

abbrev pub judge :
    ResourceServer → Env → List String → Option String → Option AccessToken → Database → Answer
judge r env scopes uri none db = rejected (oauth2_error env scopes none)
judge r env scopes uri (some a) db =
    if is_good env scopes (some a)
    then check_valid r uri a db
    else rejected (oauth2_error env scopes (some a))

-- `validate_bearer_token`
unfoldable pub validate_bearer_token :
    ResourceServer → Env → String → List String → Option String → Database → Answer × Database
validate_bearer_token r env token scopes uri db =
    if str_eq token ""
    then (rejected no_token, db)
    else (let (judged, db') = judged_token r env token scopes db in
        (judge r env scopes uri judged db', db'))
