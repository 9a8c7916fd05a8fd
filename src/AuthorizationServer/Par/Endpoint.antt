-- ===== src/AuthorizationServer/Par/Endpoint.antt =====
-- The two endpoints: what a request is pushed for, and what a redeemed one goes on with.
use django_oauth_toolkit.Prelude.{
  ℕ, String, ◌+◌, ◌<◌, ◌⊎◌, inl, inr, ◌≡◌, refl, sym, ◌∙◌, ap, true, false, Option, none, some,
  Bool-cases, Option-cases, str_eq, some_injective,
}
use django_oauth_toolkit.Settings.{Env, ok, ok-injective, >>=-eq-ok}
use django_oauth_toolkit.Models.Rows.{Application}
use django_oauth_toolkit.Models.Database.{Database}
use django_oauth_toolkit.AuthorizationServer.Http.{
  Query, Method, get_method, post_method, other_method, HttpRequest, get_last,
  form_encoded_body_error,
}
use django_oauth_toolkit.AuthorizationServer.Par.{
  Parameters, collect_pushed_parameters, effective_client_id, pushed_authorization_required,
  invalid_or_used, Consumed, refused, resolved, delete_request, consume_pushed_request,
}
use django_oauth_toolkit.AuthorizationServer.Par.View.{
  Core, authenticate_par_client, error_from_oauthlib, created, has_param, push, is_mismatch, post,
  dispatch, fatal, continues, resolve, enforce, handle_pushed_authorization_request,
}
use django_oauth_toolkit.AuthorizationServer.Par.Once.{
  IsPushed, IsRedeemed, consume_pushed_request_iff, IsStored, store_pushed_request-IsStored,
  stored_redeemable, consumed_spent,
}

created_injective : {u v : String} {m n : ℕ} → created u m ≡ created v n → u ≡ v
created_injective h = cc

-- What holds when the endpoint hands out a `request_uri`.
pub record IsAdmitted (env : Env) (core : Core) (random_uri : String) (request : HttpRequest)
    (db db' : Database) (request_uri : String) : Type 0 where
  pub enabled : env.settings.par_enabled ≡ true
  pub plain : (has_param request "request_uri" ≡ false) × (has_param request "request" ≡ false)
  pub client : Application
  pub authenticated : authenticate_par_client core request ≡ some client
  pub own : is_mismatch (effective_client_id request) client ≡ false
  pub valid : core.validate_authorization_request request ≡ none
  pub same_uri : request_uri ≡ random_uri
  pub stored : IsStored env random_uri client.client_id (collect_pushed_parameters request) db db'

method-cases : (m : Method) → (m ≡ post_method) ⊎ (m ≡ get_method) ⊎ (m ≡ other_method)
method-cases get_method = inr (inl refl)
method-cases post_method = inl refl
method-cases other_method = inr (inr refl)

push-IsStored :
    (env : Env) (core : Core) (random_uri : String) (request : HttpRequest) (client : Application)
    (db db' : Database) (request_uri : String) (expires_in : ℕ)
    → push env core random_uri request client db ≡ ok (db', created request_uri expires_in)
    → (core.validate_authorization_request request ≡ none)
      × (request_uri ≡ random_uri)
      × IsStored env random_uri client.client_id (collect_pushed_parameters request) db db'
unfolding push error_from_oauthlib
push-IsStored env core random_uri request client db db' request_uri expires_in h =
    elim (Option-cases (core.validate_authorization_request request)) [
      | inr (e, bad) ↦ cc (rw (push, bad) at h)
      | inl valid ↦
          let ((stored, uri, life), returned, answer) = >>=-eq-ok _ _ (rw (push, valid) at h) in
          let both : (stored, created uri life) ≡ (db', created request_uri expires_in) =
            ok-injective answer in
          let same_db : stored ≡ db' = ap (λ x. x.0) both in
          let same_uri : uri ≡ request_uri = created_injective (ap (λ x. x.1) both) in
          let (drawn, s) =
            store_pushed_request-IsStored env random_uri client.client_id
              (collect_pushed_parameters request) db stored uri life returned in
          (valid, sym same_uri ∙ drawn, rw (sym same_db) s)
    ]

post-IsAdmitted :
    (env : Env) (core : Core) (random_uri : String) (request : HttpRequest) (db db' : Database)
    (request_uri : String) (expires_in : ℕ)
    → env.settings.par_enabled ≡ true
    → post env core random_uri request db ≡ ok (db', created request_uri expires_in)
    → IsAdmitted env core random_uri request db db' request_uri
unfolding post
post-IsAdmitted env core random_uri request db db' request_uri expires_in on h =
    elim (Bool-cases (has_param request "request_uri")) [
      | inl uri ↦ cc (rw (post, uri) at h)
      | inr no_uri ↦ elim (Bool-cases (has_param request "request")) [
        | inl object ↦ cc (rw (post, no_uri, object) at h)
        | inr no_object ↦ elim (Option-cases (authenticate_par_client core request)) [
          | inl fails ↦ cc (rw (post, no_uri, no_object, fails) at h)
          | inr (client, e) ↦ elim (Bool-cases (is_mismatch (effective_client_id request) client)) [
            | inl other ↦ cc (rw (post, no_uri, no_object, e, other) at h)
            | inr own ↦
                let (valid, same_uri, stored) =
                  push-IsStored env core random_uri request client db db' request_uri expires_in
                    (rw (post, no_uri, no_object, e, own) at h) in
                record {
                  enabled = on;
                  plain = (no_uri, no_object);
                  client = client;
                  authenticated = e;
                  own = own;
                  valid = valid;
                  same_uri = same_uri;
                  stored = stored;
                }
          ]
        ]
      ]
    ]

-- The PAR endpoint hands out a request_uri only if it is enabled, the request has no request_uri and
-- no request object, its client is authenticated and the one that it names, and its parameters are
-- valid; then it has stored them.
pub dispatch-IsAdmitted :
    (env : Env) (core : Core) (random_uri : String) (request : HttpRequest) (db db' : Database)
    (request_uri : String) (expires_in : ℕ)
    → dispatch env core random_uri request db ≡ ok (db', created request_uri expires_in)
    → IsAdmitted env core random_uri request db db' request_uri
unfolding dispatch form_encoded_body_error
dispatch-IsAdmitted env core random_uri request db db' request_uri expires_in h =
    elim (Bool-cases env.settings.par_enabled) [
      | inr off ↦ cc (rw (dispatch, off) at h)
      | inl on ↦ elim (Bool-cases (form_encoded_body_error env.settings request)) [
        | inl bad ↦ cc (rw (dispatch, on, bad) at h)
        | inr fine ↦ elim (method-cases request.method) [
          | inr (inl m) ↦ cc (rw (dispatch, on, fine, m) at h)
          | inr (inr m) ↦ cc (rw (dispatch, on, fine, m) at h)
          | inl m ↦
              post-IsAdmitted env core random_uri request db db' request_uri expires_in on
                (rw (dispatch, on, fine, m) at h)
        ]
      ]
    ]

continues_injective : {q q' : Query} → continues q ≡ continues q' → q ≡ q'
continues_injective h = cc

enforce_sound :
    (env : Env) (query query' : Query) (db : Database)
    → enforce env query db ≡ continues query'
    → (pushed_authorization_required env.settings (get_last query "client_id") db ≡ false)
      × (query' ≡ query)
enforce_sound env query query' db h =
    elim (Bool-cases (pushed_authorization_required env.settings (get_last query "client_id") db)) [
      | inr free ↦ (free, sym (continues_injective (rw free at h)))
      | inl bound ↦ elim (Bool-cases env.settings.require_pushed_authorization_requests) [
        | inl server ↦ cc (rw (bound, server) at h)
        | inr client ↦ cc (rw (bound, client) at h)
      ]
    ]

resolve_sound :
    (requery : Parameters → Query) (c : Consumed) (query' : Query)
    → resolve requery c ≡ continues query'
    → (parameters : Parameters) × (c ≡ resolved parameters) × (query' ≡ requery parameters)
resolve_sound requery (refused e) query' h = cc
resolve_sound requery (resolved parameters) query' h =
    (parameters, refl, sym (continues_injective h))

-- `_handle_pushed_authorization_request` goes on only with the query of the request, if nothing requires
-- it to be pushed, or with the parameters of an unexpired pushed request of the same client, which it
-- deletes. It is called in the GET of the authorization endpoint.
pub handle_pushed_authorization_request_sound :
    (requery : Parameters → Query) (env : Env) (query query' : Query) (db db' : Database)
    → handle_pushed_authorization_request requery env query db ≡ (continues query', db')
    → ((pushed_authorization_required env.settings (get_last query "client_id") db ≡ false)
        × (query' ≡ query)
        × (db' ≡ db))
      ⊎ ((request_uri : String) × (parameters : Parameters) × (get_last query "request_uri"
            ≡ some request_uri)
          × (query' ≡ requery parameters)
          × IsRedeemed env.now request_uri (get_last query "client_id") db parameters db')
unfolding handle_pushed_authorization_request
handle_pushed_authorization_request_sound requery env query query' db db' h =
    elim (Option-cases (get_last query "request_uri")) [
      | inl e ↦
          let both : (enforce env query db, db) ≡ (continues query', db') =
            rw (handle_pushed_authorization_request, e) at h in
          let (free, same) = enforce_sound env query query' db (ap (λ x. x.0) both) in
          inl (free, same, sym (ap (λ x. x.1) both))
      | inr (u, e) ↦ elim (Bool-cases (str_eq u "")) [
        | inl empty ↦
            let both : (enforce env query db, db) ≡ (continues query', db') =
              rw (handle_pushed_authorization_request, e, empty) at h in
            let (free, same) = enforce_sound env query query' db (ap (λ x. x.0) both) in
            inl (free, same, sym (ap (λ x. x.1) both))
        | inr given ↦
            let consumed = consume_pushed_request env.now u (get_last query "client_id") db in
            let both : (resolve requery consumed.0, consumed.1) ≡ (continues query', db') =
              rw (handle_pushed_authorization_request, e, given) at h in
            let (parameters, is, same) =
              resolve_sound requery consumed.0 query' (ap (λ x. x.0) both) in
            let outcome : consumed ≡ (resolved parameters, db') = cc (is, ap (λ x. x.1) both) in
            inr (
              u,
              parameters,
              e,
              same,
              (consume_pushed_request_iff env.now u (get_last query "client_id") db parameters
                    db').0
                  outcome,
            )
      ]
    ]

-- A redeemable `request_uri` goes on with its parameters, whatever else stands in the query.
handle_redeemed :
    (requery : Parameters → Query) (env : Env) (query : Query) (db db' : Database)
    (request_uri : String) (client_id : Option String) (o : Consumed)
    → get_last query "request_uri" ≡ some request_uri
    → str_eq request_uri "" ≡ false
    → get_last query "client_id" ≡ client_id
    → consume_pushed_request env.now request_uri client_id db ≡ (o, db')
    → handle_pushed_authorization_request requery env query db ≡ (resolve requery o, db')
unfolding handle_pushed_authorization_request
handle_redeemed requery env query db db' request_uri client_id o uri named client outcome =
    rw (handle_pushed_authorization_request, uri, named, client, outcome) refl

-- From the one endpoint to the other: the authenticated client's parameters, once, in their lifetime.
pub pushed_request_redeemed :
    (requery : Parameters → Query) (env later : Env) (core : Core) (random_uri : String)
    (request : HttpRequest) (db db' : Database) (request_uri : String) (expires_in : ℕ)
    (client : Application) (query : Query)
    → IsPushed db
    → dispatch env core random_uri request db ≡ ok (db', created request_uri expires_in)
    → authenticate_par_client core request ≡ some client
    → str_eq client.client_id "" ≡ false
    → get_last query "request_uri" ≡ some request_uri
    → str_eq request_uri "" ≡ false
    → get_last query "client_id" ≡ some client.client_id
    → later.now < env.now + env.settings.par_request_uri_lifetime_seconds
    → (db'' : Database) × (handle_pushed_authorization_request requery later query db'
        ≡ (continues (requery (collect_pushed_parameters request)), db''))
      × ((again : Env)
          → handle_pushed_authorization_request requery again query db''
            ≡ (fatal invalid_or_used, db''))
pushed_request_redeemed requery env later core random_uri request db db' request_uri expires_in
      client query t h authenticated named uri given own timely =
    let i = dispatch-IsAdmitted env core random_uri request db db' request_uri expires_in h in
    let same : i.client ≡ client = some_injective (sym i.authenticated ∙ authenticated) in
    let stored : IsStored env request_uri client.client_id (collect_pushed_parameters request) db
        db' =
      rw (i.same_uri, sym same) i.stored in
    let (pushed, redeemed) =
      stored_redeemable env request_uri client.client_id (collect_pushed_parameters request) db db'
        later.now t stored named timely in
    let spent =
      consumed_spent later.now request_uri (some client.client_id)
        (collect_pushed_parameters request) db' _ pushed redeemed in
    (
      delete_request db.next_pk db',
      handle_redeemed requery later query db' _ request_uri (some client.client_id) _ uri given own
          redeemed,
      λ again.
          handle_redeemed requery again query _ _ request_uri (some client.client_id) _ uri given
            own (spent again.now (some client.client_id)),
    )
