-- ===== src/Validator/Client.antt =====
-- Client authentication of oauth2_provider/oauth2_validators.py, from `_extract_basic_auth` to
-- `authenticate_client_id`. A client on the request is always an application here.
pub mod Loaded
pub mod Sound
use django_oauth_toolkit.Prelude.{
  String, Bool, true, false, not, ◌&&◌, ◌||◌, Option, none, some, List, [], ◌∷◌, str_eq,
  if◌then◌else◌, is_some, find?,
}
use django_oauth_toolkit.Text.{split_once}
use django_oauth_toolkit.Models.Rows.{
  ClientType, confidential, public, TokenAuthMethod, unset_method, none_method, client_secret_basic,
  client_secret_post, client_secret_jwt, private_key_jwt, Application,
}
use django_oauth_toolkit.Models.Database.{Database}
use django_oauth_toolkit.Validator.Request.{Request}

-- What a step leaves: its answer, the request and the tables.
abbrev pub Outcome : Type 0 → Type 0
Outcome A = A × Request × Database

-- What the authentication relies on: Django's password hashers, the decoding of the credentials, the
-- texts that the database can hold, `is_usable`, which a deployment may override, client ID metadata
-- documents, client assertions, and oauthlib's own `client_authentication_required`.
pub record Clients : Type 0 where
  pub is_hashed : String → Bool
  pub check_password : String → String → Bool
  pub constant_time_compare : String → String → Bool
  pub decode_credentials : String → Option String
  pub unquote_plus : String → String
  pub is_representable : Option String → Bool
  pub is_usable : Application → Bool
  pub resolve_cimd_application : Option String → Database → Option Application × Database
  pub refresh_if_stale : Application → Database → Application × Database
  pub authenticate_client_assertion : Request → Database → Outcome Bool
  pub required_by_default : Bool

-- `_extract_basic_auth`; 32 is the space.
unfoldable pub extract_basic_auth : Request → Option String
extract_basic_auth request = elim request.authorization [
  | none ↦ none
  | some auth ↦ elim (split_once 32 auth) [
    | none ↦ none
    | some (auth_type, auth_string) ↦ if str_eq auth_type "Basic" then some auth_string else none
  ]
]

-- `_check_secret`
unfoldable pub check_secret : Clients → String → String → Bool
check_secret c provided_secret stored_secret =
    if c.is_hashed stored_secret
    then c.check_password provided_secret stored_secret
    else c.constant_time_compare provided_secret stored_secret

-- `self.client_id == client_id`
abbrev pub has_id : Option String → Application → Bool
has_id none a = false
has_id (some client_id) a = str_eq a.client_id client_id

-- `request.client` again, if it is the one that is asked for.
abbrev pub cached : Clients → Option String → Option Application → Option Application
cached c client_id none = none
cached c client_id (some a) = if has_id client_id a && c.is_usable a then some a else none

-- An application that is usable becomes the request's client.
unfoldable pub accept :
    Clients → Request → Option Application × Database → Outcome (Option Application)
accept c request (none, db) = (none, request, db)
accept c request (some a, db) =
    if c.is_usable a then (some a, record request { client = some a }, db) else (none, request, db)

abbrev pub refreshed : Application × Database → Option Application × Database
refreshed (a, db) = (some a, db)

-- The lookup in the database, or else by CIMD; the request has no client.
unfoldable pub load_stored :
    Clients → Option String → Request → Database → Outcome (Option Application)
load_stored c client_id request db =
    if not (c.is_representable client_id)
    then (none, request, db)
    else elim (find? (has_id client_id) db.applications) [
      | none ↦ accept c request (c.resolve_cimd_application client_id db)
      | some a ↦ accept c request (refreshed (c.refresh_if_stale a db))
    ]

-- `_load_application`
unfoldable pub load_application :
    Clients → Option String → Request → Database → Outcome (Option Application)
load_application c client_id request db = elim (cached c client_id request.client) [
  | some a ↦ (some a, request, db)
  | none ↦ load_stored c client_id (record request { client = none }) db
]

-- `JWT_AUTH_METHODS`
unfoldable pub is_jwt_method : TokenAuthMethod → Bool
is_jwt_method client_secret_jwt = true
is_jwt_method private_key_jwt = true
is_jwt_method unset_method = false
is_jwt_method none_method = false
is_jwt_method client_secret_basic = false
is_jwt_method client_secret_post = false

abbrev pub is_public : ClientType → Bool
is_public public = true
is_public confidential = false

-- The checks of a client that was loaded.
unfoldable pub check_client : Clients → String → String → Application → Bool
check_client c grant_type client_secret a =
    if is_jwt_method a.token_endpoint_auth_method
    then false
    else if is_public a.client_type
        && str_eq grant_type "urn:ietf:params:oauth:grant-type:device_code"
    then true
    else check_secret c client_secret a.client_secret

abbrev pub check_loaded : Clients → String → Outcome (Option Application) → Outcome Bool
check_loaded c client_secret (none, request, db) = (false, request, db)
check_loaded c client_secret (some a, request, db) =
    (check_client c request.grant_type client_secret a, request, db)

-- The client id and the secret of the header; 58 is the colon.
unfoldable pub basic_credentials : Clients → Request → Option (String × String)
basic_credentials c request = elim (extract_basic_auth request) [
  | none ↦ none
  | some auth_string ↦
      if str_eq auth_string "" then none else elim (c.decode_credentials auth_string) [
        | none ↦ none
        | some decoded ↦ elim (split_once 58 decoded) [
          | none ↦ none
          | some (client_id, client_secret) ↦
              some (c.unquote_plus client_id, c.unquote_plus client_secret)
        ]
      ]
]

-- `request.client.client_id != client_id`
abbrev pub same_client : String → Outcome (Option Application) → Outcome (Option Application)
same_client client_id (none, request, db) = (none, request, db)
same_client client_id (some a, request, db) =
    (if str_eq a.client_id client_id then some a else none, request, db)

-- `_authenticate_basic_auth`
unfoldable pub authenticate_basic_auth : Clients → Request → Database → Outcome Bool
authenticate_basic_auth c request db = elim (basic_credentials c request) [
  | none ↦ (false, request, db)
  | some (client_id, client_secret) ↦
      check_loaded c client_secret
        (same_client client_id (load_application c (some client_id) request db))
]

abbrev pub secret_or_empty : Option String → String
secret_or_empty none = ""
secret_or_empty (some s) = s

-- `_authenticate_request_body`
unfoldable pub authenticate_request_body : Clients → Request → Database → Outcome Bool
authenticate_request_body c request db =
    check_loaded c (secret_or_empty request.client_secret)
      (load_application c request.client_id request db)

-- `_presents_client_assertion`
unfoldable pub presents_client_assertion : Request → Bool
presents_client_assertion request =
    is_some request.client_assertion || is_some request.client_assertion_type

abbrev pub or_else : Outcome Bool → (Request → Database → Outcome Bool) → Outcome Bool
or_else (true, request, db) next = (true, request, db)
or_else (false, request, db) next = next request db

-- `authenticate_client`
unfoldable pub authenticate_client : Clients → Request → Database → Outcome Bool
authenticate_client c request db =
    if presents_client_assertion request
    then c.authenticate_client_assertion request db
    else or_else (authenticate_basic_auth c request db) (authenticate_request_body c)

-- Truth of a text that may be missing.
abbrev pub is_given : Option String → Bool
is_given none = false
is_given (some s) = not (str_eq s "")

abbrev pub is_required : Clients → Option Application → Bool
is_required c none = c.required_by_default
is_required c (some a) = not (is_public a.client_type)

-- `client_authentication_required`
unfoldable pub client_authentication_required : Clients → Request → Database → Outcome Bool
client_authentication_required c request db =
    if presents_client_assertion request
      || is_given (extract_basic_auth request)
      || (is_given request.client_id && is_given request.client_secret)
    then (true, request, db)
    else (let (loaded, request', db') = load_application c request.client_id request db in
        (is_required c request'.client, request', db'))

abbrev pub is_not_confidential : Outcome (Option Application) → Outcome Bool
is_not_confidential (none, request, db) = (false, request, db)
is_not_confidential (some a, request, db) = (is_public a.client_type, request, db)

-- `authenticate_client_id`
unfoldable pub authenticate_client_id : Clients → Option String → Request → Database → Outcome Bool
authenticate_client_id c client_id request db =
    is_not_confidential (load_application c client_id request db)
