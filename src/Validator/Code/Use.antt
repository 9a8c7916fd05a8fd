-- ===== src/Validator/Code/Use.antt =====
-- An authorization code works until it expires, and once.
use django_oauth_toolkit.Prelude.{
  ℕ, ◌+◌, ◌<◌, String, ◌≡◌, refl, sym, ◌∙◌, ap, inl, inr, Bool, true, false, not, ◌&&◌, Option,
  none, some, List, [], ◌∷◌, All-imp, All-total, arith, str_eq, if-cases, points_to, filter, any,
  any-eq-false, find?-append_new, find?-filter-none,
}
use text.Mathlib.TextPositions.{eq_refl}
use django_oauth_toolkit.Settings.{
  Env, ok, err, does_not_exist, invalid_grant, invalid_request, ok-injective,
}
use django_oauth_toolkit.Models.Rows.{Grant, is_expired}
use django_oauth_toolkit.Models.Database.{Database}
use django_oauth_toolkit.Validator.Request.{Request, client_pk}
use django_oauth_toolkit.Validator.Resource.{find_grant}
use django_oauth_toolkit.Validator.Code.{
  is_plain, new_grant, insert_grant, create_grant, create_authorization_code, grant_request,
  validate_code, confirm_redirect_uri, is_code, invalidate_authorization_code,
}

filter-any : (p : Grant → Bool) (rows : List Grant) → any p (filter (λ g. not (p g)) rows) ≡ false
filter-any p [] = refl
filter-any p (g ∷ rows) = ground (arith, filter-any p rows)

-- The code is gone for its client.
pub record IsInvalid (code : String) (application : Option ℕ) (db : Database) : Type 0 where
  pub validated :
      (env : Env) (request : Request)
      → validate_code env code application request db ≡ (false, request)
  pub confirmed : (uri : String) → confirm_redirect_uri code uri application db ≡ err does_not_exist
  pub invalidated : invalidate_authorization_code code application db ≡ err invalid_grant

gone-IsInvalid :
    (code : String) (application : Option ℕ) (db : Database)
    → find_grant db code application ≡ none
    → any (is_code code application) db.grants ≡ false
    → IsInvalid code application db
unfolding validate_code confirm_redirect_uri invalidate_authorization_code
gone-IsInvalid code application db gone absent = record {
  validated = λ env request. rw (gone, validate_code) refl;
  confirmed = λ uri. rw (gone, confirm_redirect_uri) refl;
  invalidated = rw (absent, invalidate_authorization_code) refl;
}

-- Once `invalidate_authorization_code` returned, the code is gone for its client: at any time
-- `validate_code` refuses it and leaves the request, `confirm_redirect_uri` finds no grant, and a second
-- invalidation raises `InvalidGrantError`.
pub invalidate_authorization_code_once :
    (code : String) (application : Option ℕ) (db db' : Database)
    → invalidate_authorization_code code application db ≡ ok db'
    → IsInvalid code application db'
unfolding invalidate_authorization_code find_grant
invalidate_authorization_code_once code application db db' h =
    elim (if-cases (any (is_code code application) db.grants) _ _ h) [
      | inr (absent, k) ↦ cc
      | inl (present, k) ↦ rw (sym (ok-injective k)) (
          gone-IsInvalid code application _
            (find?-filter-none _ _ db.grants (All-total _ (λ g e. ap not e) db.grants))
            (filter-any (is_code code application) db.grants))
    ]

-- A code that was created: its row is found for the client.
record IsIssued (env : Env) (request : Request) (code : String) (db db' : Database) : Type 0 where
  user : ℕ
  user_of : request.user ≡ some user
  application : ℕ
  client_of : client_pk request ≡ some application
  row : Grant
  is_new : row ≡ new_grant env request code user application db
  found : find_grant db' code (some application) ≡ some row

insert_grant-found :
    (g : Grant) (db db' : Database)
    → insert_grant g db ≡ ok db'
    → find_grant db' g.code (some g.application) ≡ some g
unfolding insert_grant find_grant
insert_grant-found g db db' h = elim (if-cases (any (λ k. str_eq k.code g.code) db.grants) _ _ h) [
  | inl (clash, k) ↦ cc
  | inr (fresh, k) ↦
      ap (λ d. find_grant d g.code (some g.application)) (sym (ok-injective k))
      ∙ find?-append_new _ db.grants g
          (All-imp _ _ (λ o e. ap (λ b. b && points_to (some g.application) o.application) e)
            db.grants (any-eq-false _ db.grants fresh))
          (ground (arith, eq_refl g.code))
]

create_grant-IsIssued :
    (env : Env) (request : Request) (code : String) (user application : Option ℕ)
    (db db' : Database)
    → request.user ≡ user
    → client_pk request ≡ application
    → create_grant env request code user application db ≡ ok db'
    → IsIssued env request code db db'
unfolding create_grant new_grant
create_grant-IsIssued env request code none application db db' e f h = cc
create_grant-IsIssued env request code (some user) none db db' e f h = cc
create_grant-IsIssued env request code (some user) (some application) db db' e f h = record {
  user = user;
  user_of = e;
  application = application;
  client_of = f;
  row = new_grant env request code user application db;
  is_new = refl;
  found = insert_grant-found (new_grant env request code user application db) db db' h;
}

validate_found_grant :
    (later : Env) (code : String) (client : Option ℕ) (r : Request) (db : Database) (g : Grant)
    → find_grant db code client ≡ some g
    → later.now < g.expires
    → validate_code later code client r db ≡ (true, grant_request g r)
unfolding validate_code is_expired
validate_found_grant later code client r db g found h = rw (found, validate_code) (ground arith)

-- After `_create_authorization_code` returned, `validate_code` accepts the code for the request's client
-- at any time before AUTHORIZATION_CODE_EXPIRE_SECONDS have passed, and gives the request of that time
-- the user that the code was created for.
pub created_code_valid :
    (env later : Env) (request r : Request) (code : String) (db db' : Database)
    → create_authorization_code env request code db ≡ ok db'
    → later.now < env.now + env.settings.authorization_code_expire_seconds
    → ((validate_code later code (client_pk request) r db').0 ≡ true)
      × ((validate_code later code (client_pk request) r db').1.user ≡ request.user)
unfolding create_authorization_code new_grant
created_code_valid env later request r code db db' h time =
    elim (if-cases
      (is_plain request.code_challenge_method && env.settings.compliant_bcp_rfc9700_pkce_method)
      (err invalid_request) (create_grant env request code request.user (client_pk request) db) h) [
        | inl (refused, k) ↦ cc
        | inr (passed, k) ↦
            let i =
              create_grant-IsIssued env request code request.user (client_pk request) db db' refl
                refl k in
            let found : find_grant db' code (client_pk request) ≡ some i.row =
              ap (find_grant db' code) i.client_of ∙ i.found in
            let expires : i.row.expires ≡ env.now + env.settings.authorization_code_expire_seconds =
              ap (λ g. g.expires) i.is_new in
            let owner : some i.row.user ≡ request.user =
              ap (λ g. some g.user) i.is_new ∙ sym i.user_of in
            let valid =
              validate_found_grant later code (client_pk request) r db' i.row found
                (rw expires time) in
            (ap (λ v. v.0) valid, ap (λ v. v.1.user) valid ∙ owner)
      ]
