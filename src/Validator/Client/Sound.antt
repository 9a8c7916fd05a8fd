-- ===== src/Validator/Client/Sound.antt =====
-- What a client that passes the authentication has shown.
use django_oauth_toolkit.Prelude.{
  String, ◌⊎◌, inl, inr, ◌≡◌, refl, sym, ◌∙◌, ap, Bool, true, false, ◌&&◌, Option, none, some,
  Bool-cases, Option-cases, str_eq, eq_iff, some_injective,
}
use django_oauth_toolkit.Models.Rows.{Application}
use django_oauth_toolkit.Models.Database.{Database}
use django_oauth_toolkit.Validator.Request.{Request}
use django_oauth_toolkit.Validator.Client.{
  Outcome, Clients, check_secret, load_application, is_jwt_method, is_public, check_client,
  check_loaded, basic_credentials, same_client, authenticate_basic_auth, secret_or_empty,
  authenticate_request_body, presents_client_assertion, or_else, authenticate_client,
}
use django_oauth_toolkit.Validator.Client.Loaded.{
  IsLoaded, load_application-IsLoaded, and_left, and_right,
}

abbrev device_code_grant : String
device_code_grant = "urn:ietf:params:oauth:grant-type:device_code"

-- The secret that a request presents for an application: of the header, or of the body.
abbrev IsPresented : Clients → Request → Application → String → Type 0
IsPresented c request a secret =
    ((client_id : String) × (basic_credentials c request ≡ some (client_id, secret))
      × (a.client_id ≡ client_id))
    ⊎ (secret ≡ secret_or_empty request.client_secret)

abbrev IsChecked : Clients → String → String → Application → Type 0
IsChecked c grant_type secret a =
    (is_jwt_method a.token_endpoint_auth_method ≡ false)
    × (((is_public a.client_type ≡ true) × (str_eq grant_type device_code_grant ≡ true))
        ⊎ (check_secret c secret a.client_secret ≡ true))

-- What an authenticated request has: a usable application that is not bound to client assertions, and
-- its secret, unless it is a public client in the device flow.
pub record IsAuthenticated (c : Clients) (request request' : Request) : Type 0 where
  pub application : Application
  pub on_request : request'.client ≡ some application
  pub usable : c.is_usable application ≡ true
  pub secret : String
  pub presented : IsPresented c request application secret
  pub checked : IsChecked c request.grant_type secret application

check_client-IsChecked :
    (c : Clients) (grant_type secret : String) (a : Application)
    → check_client c grant_type secret a ≡ true
    → IsChecked c grant_type secret a
unfolding check_client
check_client-IsChecked c grant_type secret a h =
    elim (Bool-cases (is_jwt_method a.token_endpoint_auth_method)) [
      | inl jwt ↦ cc (rw (check_client, jwt) at h)
      | inr plain ↦
          elim (Bool-cases (is_public a.client_type && str_eq grant_type device_code_grant)) [
            | inl device ↦ (
              plain,
              inl (
                and_left (is_public a.client_type) _ device,
                and_right (is_public a.client_type) _ device,
              ),
            )
            | inr other ↦ (plain, inr (rw (check_client, plain, other) at h))
          ]
    ]

check_loaded-get :
    (c : Clients) (request : Request) (secret : String) (o : Outcome (Option Application))
    (request' : Request) (db' : Database)
    → IsLoaded c request o
    → check_loaded c secret o ≡ (true, request', db')
    → (a : Application) × (o.0 ≡ some a)
      × (request'.client ≡ some a)
      × (c.is_usable a ≡ true)
      × IsChecked c request.grant_type secret a
check_loaded-get c request secret (none, r, db) request' db' i h = cc
check_loaded-get c request secret (some a, r, db) request' db' i h =
    let same : r ≡ request' = ap (λ x. x.1) h in
    let (client, usable) = i.loaded a refl in
    let grant : r.grant_type ≡ request.grant_type = ap (λ (x : Request). x.grant_type) i.others in
    (
      a,
      refl,
      ap (λ (x : Request). x.client) (sym same ∙ i.others) ∙ client,
      usable,
      check_client-IsChecked c request.grant_type secret a
          (ap (λ g. check_client c g secret a) (sym grant) ∙ ap (λ x. x.0) h),
    )

body-IsAuthenticated :
    (c : Clients) (request request' : Request) (x : Option Application) (db db' : Database)
    → authenticate_request_body c (record request { client = x }) db ≡ (true, request', db')
    → IsAuthenticated c request request'
unfolding authenticate_request_body
body-IsAuthenticated c request request' x db db' h =
    let (a, found, client, usable, checked) =
      check_loaded-get c (record request { client = x }) _ _ request' db'
        (load_application-IsLoaded c request.client_id (record request { client = x }) db) h in
    record {
      application = a;
      on_request = client;
      usable = usable;
      secret = secret_or_empty request.client_secret;
      presented = inr refl;
      checked = checked;
    }

-- The check of the id in the header.
same_client-IsLoaded :
    (c : Clients) (request : Request) (client_id : String) (o : Outcome (Option Application))
    → IsLoaded c request o
    → IsLoaded c request (same_client client_id o)
same_client-IsLoaded c request client_id (none, r, db) i = i
same_client-IsLoaded c request client_id (some b, r, db) i =
    elim (Bool-cases (str_eq b.client_id client_id)) [
      | inl same ↦ rw same i
      | inr other ↦ rw other (record { client = i.client; others = i.others; loaded = λ a e. cc })
    ]

same_client-get :
    (client_id : String) (o : Outcome (Option Application)) (a : Application)
    → (same_client client_id o).0 ≡ some a
    → a.client_id ≡ client_id
same_client-get client_id (none, r, db) a e = cc
same_client-get client_id (some b, r, db) a e = elim (Bool-cases (str_eq b.client_id client_id)) [
  | inl same ↦
      let s : b ≡ a = some_injective (rw same at e) in
      ap (λ (x : Application). x.client_id) (sym s) ∙ (eq_iff b.client_id client_id).0 same
  | inr other ↦ cc (rw other at e)
]

basic-IsAuthenticated :
    (c : Clients) (request request' : Request) (db db' : Database)
    → authenticate_basic_auth c request db ≡ (true, request', db')
    → IsAuthenticated c request request'
unfolding authenticate_basic_auth
basic-IsAuthenticated c request request' db db' h =
    elim (Option-cases (basic_credentials c request)) [
      | inl e ↦ cc (rw (authenticate_basic_auth, e) at h)
      | inr ((client_id, secret), e) ↦
          let o = load_application c (some client_id) request db in
          let (a, found, client, usable, checked) =
            check_loaded-get c request secret (same_client client_id o) request' db'
              (same_client-IsLoaded c request client_id o
                (load_application-IsLoaded c (some client_id) request db))
              (rw (authenticate_basic_auth, e) at h) in
          record {
            application = a;
            on_request = client;
            usable = usable;
            secret = secret;
            presented = inl (client_id, e, same_client-get client_id o a found);
            checked = checked;
          }
    ]

-- A check that fails has changed the client of the request only.
check_loaded-others :
    (c : Clients) (request : Request) (secret : String) (o : Outcome (Option Application))
    → IsLoaded c request o
    → (x : Option Application) × ((check_loaded c secret o).1 ≡ record request { client = x })
check_loaded-others c request secret (none, r, db) i = (i.client, i.others)
check_loaded-others c request secret (some a, r, db) i = (i.client, i.others)

basic-others :
    (c : Clients) (request : Request) (db : Database)
    → (x : Option Application) × ((authenticate_basic_auth c request db).1
        ≡ record request { client = x })
unfolding authenticate_basic_auth
basic-others c request db = elim (Option-cases (basic_credentials c request)) [
  | inl e ↦ rw (authenticate_basic_auth, e) (request.client, refl)
  | inr ((client_id, secret), e) ↦
      rw (authenticate_basic_auth, e)
        (check_loaded-others c request secret _ (
          same_client-IsLoaded c request client_id _
            (load_application-IsLoaded c (some client_id) request db)))
]

or_else-cases :
    (o : Outcome Bool) (next : Request → Database → Outcome Bool) (answer : Outcome Bool)
    → or_else o next ≡ answer
    → (o ≡ answer) ⊎ (next o.1 o.2 ≡ answer)
or_else-cases (true, r, db) next answer h = inl h
or_else-cases (false, r, db) next answer h = inr h

-- Without a client assertion, only such a request is authenticated.
pub authenticate_client-IsAuthenticated :
    (c : Clients) (request request' : Request) (db db' : Database)
    → presents_client_assertion request ≡ false
    → authenticate_client c request db ≡ (true, request', db')
    → IsAuthenticated c request request'
unfolding authenticate_client
authenticate_client-IsAuthenticated c request request' db db' plain h =
    elim (or_else-cases (authenticate_basic_auth c request db) (authenticate_request_body c)
      (true, request', db') (rw (authenticate_client, plain) at h)) [
        | inl basic ↦ basic-IsAuthenticated c request request' db db' basic
        | inr body ↦
            let (x, others) = basic-others c request db in
            body-IsAuthenticated c request request' x _ db' (
              ap (λ r. authenticate_request_body c r (authenticate_basic_auth c request db).2)
                (sym others)
              ∙ body)
      ]
