-- ===== src/AuthorizationServer/Par/View.antt =====
-- The pushed authorization request endpoint of views/par.py, and the part of `AuthorizationView` in
-- views/base.py that redeems a `request_uri`.
use django_oauth_toolkit.Prelude.{
  ℕ, String, Bool, false, not, ◌&&◌, ◌||◌, Option, none, some, ◌==◌, str_eq, if◌then◌else◌, elem,
}
use django_oauth_toolkit.Settings.{Env, Result, ok, ◌>>=◌}
use django_oauth_toolkit.Models.Rows.{Application}
use django_oauth_toolkit.Models.Database.{Database}
use django_oauth_toolkit.AuthorizationServer.Http.{
  Query, get_method, post_method, other_method, HttpRequest, get_last, keys,
  form_encoded_body_error,
}
use django_oauth_toolkit.AuthorizationServer.Par.{
  effective_client_id, Parameters, collect_pushed_parameters, store_pushed_request,
  pushed_authorization_required, PushedError, Consumed, consume_pushed_request, refused, resolved,
}

-- An error that oauthlib raised: its code, its description and its status, where it has them.
pub record OauthError : Type 0 where
  pub code : Option String
  pub description : Option String
  pub status : Option ℕ

-- What the endpoint asks of the validator and of oauthlib.
pub record Core : Type 0 where
  pub authenticate_client : HttpRequest → Option Application
  pub client_id : HttpRequest → Option String
  pub authenticate_client_id : String → HttpRequest → Option Application
  pub validate_authorization_request : HttpRequest → Option OauthError

-- `authenticate_par_client`
unfoldable pub authenticate_par_client : Core → HttpRequest → Option Application
authenticate_par_client core request = elim (core.authenticate_client request) [
  | some client ↦ some client
  | none ↦ elim (core.client_id request) [
    | none ↦ none
    | some client_id ↦
        if str_eq client_id "" then none else core.authenticate_client_id client_id request
  ]
]

pub data Response : Type 0 where
  disabled unsupported_media_type method_not_allowed : Response
  error_response : String → String → ℕ → Response
  created : String → ℕ → Response

-- `value or default`
abbrev pub text_or : String → Option String → String
text_or default none = default
text_or default (some s) = if str_eq s "" then default else s

abbrev pub status_or : ℕ → Option ℕ → ℕ
status_or default none = default
status_or default (some n) = if n == 0 then default else n

-- `_error_from_oauthlib`
unfoldable pub error_from_oauthlib : OauthError → Response
error_from_oauthlib e =
    error_response (text_or "invalid_request" e.code) (text_or "" e.description)
      (status_or 400 e.status)

-- `_has_param`
abbrev pub has_param : HttpRequest → String → Bool
has_param request name = elem name (keys request.post) || elem name (keys request.get)

-- The end of `post`, for an authenticated client.
unfoldable pub push :
    Env → Core → String → HttpRequest → Application → Database → Result (Database × Response)
push env core random_uri request client db = elim (core.validate_authorization_request request) [
  | some e ↦ ok (db, error_from_oauthlib e)
  | none ↦
      store_pushed_request env random_uri client.client_id (collect_pushed_parameters request) db
      >>= (λ (db', request_uri, expires_in). ok (db', created request_uri expires_in))
]

-- `client_id and client.client_id != client_id`
unfoldable pub is_mismatch : Option String → Application → Bool
is_mismatch none client = false
is_mismatch (some client_id) client =
    not (str_eq client_id "") && not (str_eq client.client_id client_id)

-- `PushedAuthorizationRequestView.post`
unfoldable pub post : Env → Core → String → HttpRequest → Database → Result (Database × Response)
post env core random_uri request db =
    if has_param request "request_uri"
    then ok (
      db,
      error_response "invalid_request"
          "The request_uri parameter must not be provided to the PAR endpoint." 400,
    )
    else if has_param request "request"
    then ok (
      db,
      error_response "invalid_request"
          "Request objects (the 'request' parameter) are not supported." 400,
    )
    else elim (authenticate_par_client core request) [
      | none ↦ ok (db, error_response "invalid_client" "Client authentication failed." 401)
      | some client ↦
          if is_mismatch (effective_client_id request) client
          then ok (
            db,
            error_response "invalid_request"
                "The client_id does not match the authenticated client." 400,
          )
          else push env core random_uri request client db
    ]

-- `PushedAuthorizationRequestView.dispatch`, with those it inherits.
unfoldable pub dispatch :
    Env → Core → String → HttpRequest → Database → Result (Database × Response)
dispatch env core random_uri request db =
    if not env.settings.par_enabled
    then ok (db, disabled)
    else if form_encoded_body_error env.settings request
    then ok (db, unsupported_media_type)
    else elim request.method [
      | post_method ↦ post env core random_uri request db
      | get_method ↦ ok (db, method_not_allowed)
      | other_method ↦ ok (db, method_not_allowed)
    ]

-- What `_handle_pushed_authorization_request` comes to: an error page, or the query to go on with.
pub data Handled : Type 0 where
  fatal : PushedError → Handled
  required_by_server required_for_client : Handled
  continues : Query → Handled

-- The query of the redeemed request: Django's `QueryDict(urlencode(parameters, doseq=True))`.
abbrev pub resolve : (Parameters → Query) → Consumed → Handled
resolve requery (refused e) = fatal e
resolve requery (resolved parameters) = continues (requery parameters)

-- `_resolve_pushed_request_uri`
abbrev pub resolve_pushed_request_uri :
    (Parameters → Query) → Env → Query → String → Database → Handled × Database
resolve_pushed_request_uri requery env query request_uri db =
    let (consumed, db') =
      consume_pushed_request env.now request_uri (get_last query "client_id") db in
    (resolve requery consumed, db')

-- Mandatory PAR.
abbrev pub enforce : Env → Query → Database → Handled
enforce env query db =
    if pushed_authorization_required env.settings (get_last query "client_id") db
    then (if env.settings.require_pushed_authorization_requests
        then required_by_server
        else required_for_client)
    else continues query

-- `_handle_pushed_authorization_request`
unfoldable pub handle_pushed_authorization_request :
    (Parameters → Query) → Env → Query → Database → Handled × Database
handle_pushed_authorization_request requery env query db = elim (get_last query "request_uri") [
  | none ↦ (enforce env query db, db)
  | some request_uri ↦
      if str_eq request_uri ""
      then (enforce env query db, db)
      else resolve_pushed_request_uri requery env query request_uri db
]
