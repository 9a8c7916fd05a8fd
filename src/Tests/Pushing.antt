-- ===== src/Tests/Pushing.antt =====
-- The theorems on pushed authorization requests, on an example client.
use django_oauth_toolkit.Prelude.{
  String, ◌⊎◌, ◌↔◌, ◌≡◌, refl, false, none, some, [], ◌∷◌, ◌++◌, map, arith,
}
use django_oauth_toolkit.Settings.{Env, ok}
use django_oauth_toolkit.Models.Rows.{Parameter, text, texts, is_expired}
use django_oauth_toolkit.Models.Database.{Database}
use django_oauth_toolkit.AuthorizationServer.Http.{
  Query, HttpRequest, post_method, get_last, get_item, form_encoded_body_error,
}
use django_oauth_toolkit.AuthorizationServer.Par.{
  Parameters, collect_pushed_parameters, effective_client_id, create_pushed_authorization_request,
  store_pushed_request, resolved, delete_request, consume_pushed_request, invalid_or_used,
  pushed_authorization_required,
}
use django_oauth_toolkit.AuthorizationServer.Par.View.{
  Core, authenticate_par_client, is_mismatch, push, post, dispatch, created, continues, fatal,
  handle_pushed_authorization_request,
}
use django_oauth_toolkit.AuthorizationServer.Par.Collect.{collect_pushed_parameters-lookup}
use django_oauth_toolkit.AuthorizationServer.Par.Once.{
  IsPushed, IsRedeemed, new_request, add_request, consume_pushed_request_iff,
}
use django_oauth_toolkit.AuthorizationServer.Par.Endpoint.{
  IsAdmitted, dispatch-IsAdmitted, handle_pushed_authorization_request_sound,
  pushed_request_redeemed,
}
use django_oauth_toolkit.Tests.{env, client, db}

abbrev pushing : HttpRequest
pushing = record {
  method = post_method;
  content_type = "application/x-www-form-urlencoded";
  get = ("scope", "openid") ∷ ("resource", "https://a.test") ∷ [];
  post =
      ("client_id", "client")
      ∷ ("client_secret", "secret")
      ∷ ("scope", "read")
      ∷ ("resource", "https://b.test")
      ∷ [];
}

abbrev drawn : String
drawn = "urn:ietf:params:oauth:request_uri:x"

abbrev core : Core
core = record {
  authenticate_client = λ r. some client;
  client_id = λ r. some "client";
  authenticate_client_id = λ i r. none;
  validate_authorization_request = λ r. none;
}

-- `urlencode` with `doseq`, read back by `QueryDict`.
abbrev fields : String × Parameter → Query
fields (k, text v) = (k, v) ∷ []
fields (k, texts vs) = map (λ v. (k, v)) vs

abbrev requery : Parameters → Query
requery [] = []
requery (p ∷ ps) = fields p ++ requery ps

abbrev stored : Database
stored =
    add_request
      (new_request env drawn "client" (("client_id", text "client") ∷ ("scope", text "read") ∷ [])
        db)
      db

abbrev returning : Query
returning = ("client_id", "client") ∷ ("request_uri", drawn) ∷ ("scope", "write") ∷ []

collect_example :
    get_item "resource" (collect_pushed_parameters pushing)
    ≡ some (texts ("https://a.test" ∷ "https://b.test" ∷ []))
collect_example = collect_pushed_parameters-lookup pushing "resource"

consume_example :
    (consume_pushed_request 120 drawn (some "client") stored ≡ (
      resolved (("client_id", text "client") ∷ ("scope", text "read") ∷ []),
      delete_request 12 stored,
    ))
    ↔ IsRedeemed 120 drawn
        (some "client")
        stored
        (("client_id", text "client") ∷ ("scope", text "read") ∷ [])
        (delete_request 12 stored)
consume_example =
    consume_pushed_request_iff 120 drawn (some "client") stored
      (("client_id", text "client") ∷ ("scope", text "read") ∷ []) (delete_request 12 stored)

abbrev answered : Database
answered = add_request (new_request env drawn "client" (collect_pushed_parameters pushing) db) db

answer : dispatch env core drawn pushing db ≡ ok (answered, created drawn 60)
unfolding dispatch form_encoded_body_error post authenticate_par_client is_mismatch
    effective_client_id push store_pushed_request create_pushed_authorization_request
answer = refl

authenticated : authenticate_par_client core pushing ≡ some client
unfolding authenticate_par_client
authenticated = refl

db-IsPushed : IsPushed db
db-IsPushed = record { own_uri = tt; keyed = tt; fresh = tt }

handed_out_example : IsAdmitted env core drawn pushing db answered drawn
handed_out_example = dispatch-IsAdmitted env core drawn pushing db answered drawn 60 answer

redeemed :
    handle_pushed_authorization_request requery env returning stored
    ≡ (continues (("client_id", "client") ∷ ("scope", "read") ∷ []), delete_request 12 stored)
unfolding handle_pushed_authorization_request consume_pushed_request is_expired
redeemed = refl

handle_example :
    ((pushed_authorization_required env.settings (some "client") stored ≡ false)
      × ((("client_id", "client") ∷ ("scope", "read") ∷ []) ≡ returning)
      × (delete_request 12 stored ≡ stored))
    ⊎ ((request_uri : String) × (parameters : Parameters) × (get_last returning "request_uri"
          ≡ some request_uri)
        × ((("client_id", "client") ∷ ("scope", "read") ∷ []) ≡ requery parameters)
        × IsRedeemed 100 request_uri (some "client") stored parameters (delete_request 12 stored))
handle_example =
    handle_pushed_authorization_request_sound requery env returning
      (("client_id", "client") ∷ ("scope", "read") ∷ []) stored (delete_request 12 stored) redeemed

pushed_then_redeemed_example :
    (db'' : Database) × (handle_pushed_authorization_request requery
        (record env { now = 130 })
        returning
        answered
      ≡ (continues (requery (collect_pushed_parameters pushing)), db''))
    × ((again : Env)
        → handle_pushed_authorization_request requery again returning db''
          ≡ (fatal invalid_or_used, db''))
pushed_then_redeemed_example =
    pushed_request_redeemed requery env (record env { now = 130 }) core drawn pushing db answered
      drawn 60 client returning db-IsPushed answer authenticated refl refl refl refl (omega arith)
