-- ===== src/AuthorizationServer/Par.antt =====
-- Pushed authorization requests: oauth2_provider/authorization_server/par.py.
pub mod View
pub mod Fold
pub mod Collect
pub mod Once
pub mod Endpoint
use django_oauth_toolkit.Prelude.{
  ℕ, ◌+◌, String, Bool, true, false, not, ◌&&◌, ◌||◌, Option, none, some, List, [], ◌∷◌, ◌++◌, ◌==◌,
  str_eq, if◌then◌else◌, is_some, filter, find?, any, elem,
}
use django_oauth_toolkit.Settings.{Env, Settings, Result, ok, err, integrity_error, ◌>>=◌}
use django_oauth_toolkit.Models.Rows.{
  Application, PushedRequest, Parameter, text, texts, is_expired,
}
use django_oauth_toolkit.Models.Database.{Database}
use django_oauth_toolkit.AuthorizationServer.Http.{
  Query, Method, get_method, post_method, other_method, HttpRequest, getlist, get_last, keys,
  is_truthy, set_item, form_encoded_body_error,
}

-- `CLIENT_AUTH_PARAMETERS`
abbrev pub client_auth_parameters : List String
client_auth_parameters = "client_secret" ∷ "client_assertion" ∷ "client_assertion_type" ∷ []

-- `effective_client_id`
unfoldable pub effective_client_id : HttpRequest → Option String
effective_client_id request =
    if is_truthy (get_last request.post "client_id")
    then get_last request.post "client_id"
    else get_last request.get "client_id"

abbrev pub Parameters : Type 0
Parameters = List (String × Parameter)

-- The two accumulators of `collect_pushed_parameters`.
pub record Collected : Type 0 where
  pub parameters : Parameters
  pub resource_values : List String

abbrev pub put : String → Option String → Parameters → Parameters
put key none d = d
put key (some v) d = set_item key (text v) d

-- One key of a source.
unfoldable pub collect_key : Query → String → Collected → Collected
collect_key source key c =
    if elem key client_auth_parameters
    then c
    else if str_eq key "resource"
    then record c { resource_values = c.resource_values ++ getlist source key }
    else record c { parameters = put key (get_last source key) c.parameters }

unfoldable pub collect_keys : Query → List String → Collected → Collected
collect_keys source [] c = c
collect_keys source (key ∷ ks) c = collect_keys source ks (collect_key source key c)

-- `parameters["resource"] = resource_values`, if there are any.
unfoldable pub with_resources : Collected → Parameters
with_resources c = elim c.resource_values [
  | [] ↦ c.parameters
  | r ∷ rs ↦ set_item "resource" (texts (r ∷ rs)) c.parameters
]

-- `collect_pushed_parameters`
unfoldable pub collect_pushed_parameters : HttpRequest → Parameters
collect_pushed_parameters request =
    let empty : Collected = record { parameters = []; resource_values = [] } in
    let from_get = collect_keys request.get (keys request.get) empty in
    with_resources (collect_keys request.post (keys request.post) from_get)

-- `create_pushed_authorization_request`: the table has a unique constraint on `request_uri`.
unfoldable pub create_pushed_authorization_request :
    Env → String → String → Parameters → ℕ → Database → Result Database
create_pushed_authorization_request env request_uri client_id parameters expires_in db =
    if any (λ p. str_eq p.request_uri request_uri) db.pushed_requests
    then err integrity_error
    else ok (record db {
      pushed_requests =
          db.pushed_requests
          ++ record {
            pk = db.next_pk;
            request_uri = request_uri;
            client_id = client_id;
            parameters = parameters;
            expires = env.now + expires_in;
          }
            ∷ [];
      next_pk = db.next_pk + 1;
    })

-- `store_pushed_request`; the random `request_uri`, with its prefix, is an argument.
unfoldable pub store_pushed_request :
    Env → String → String → Parameters → Database → Result (Database × String × ℕ)
store_pushed_request env random_uri client_id parameters db = do
  let expires_in = env.settings.par_request_uri_lifetime_seconds
  db' ← create_pushed_authorization_request env random_uri client_id parameters expires_in db
  ok (db', random_uri, expires_in)

-- `pushed_authorization_required`
unfoldable pub pushed_authorization_required : Settings → Option String → Database → Bool
pushed_authorization_required settings none db = settings.require_pushed_authorization_requests
pushed_authorization_required settings (some client_id) db =
    settings.require_pushed_authorization_requests
    || (not (str_eq client_id "")
        && any
            (λ a.
              str_eq a.client_id client_id
              && (elim a.require_pushed_authorization_requests [ none ↦ false | some b ↦ b ]))
            db.applications)

pub data PushedError : Type 0 where
  not_issued invalid_or_used has_expired : PushedError

pub data Consumed : Type 0 where
  refused : PushedError → Consumed
  resolved : Parameters → Consumed

-- The client binding.
abbrev pub issued_to : Option String → PushedRequest → Bool
issued_to none r = false
issued_to (some client_id) r = not (str_eq client_id "") && str_eq client_id r.client_id

-- `record.delete()`
abbrev pub delete_request : ℕ → Database → Database
delete_request pk db = record db {
  pushed_requests = filter (λ p. not (p.pk == pk)) db.pushed_requests;
}

abbrev pub find_request : String → Database → Option PushedRequest
find_request request_uri db = find? (λ p. str_eq p.request_uri request_uri) db.pushed_requests

-- `consume_pushed_request`
unfoldable pub consume_pushed_request : ℕ → String → Option String → Database → Consumed × Database
unfolding is_expired
consume_pushed_request now request_uri client_id db = elim (find_request request_uri db) [
  | none ↦ (refused invalid_or_used, db)
  | some r ↦
      if not (issued_to client_id r)
      then (refused not_issued, db)
      else if is_expired now (some r.expires)
      then (refused has_expired, delete_request r.pk db)
      else (resolved r.parameters, delete_request r.pk db)
]
