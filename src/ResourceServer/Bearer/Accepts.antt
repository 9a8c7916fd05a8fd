-- ===== src/ResourceServer/Bearer/Accepts.antt =====
-- Which tokens a resource server accepts, and which errors it gives.
use django_oauth_toolkit.Prelude.{
  String, ◌⊎◌, inl, inr, ◌≡◌, ◌≢◌, sym, ◌∙◌, ap, true, false, Option, none, some, List, Bool-cases,
  Option-cases, str_eq,
}
use django_oauth_toolkit.Settings.{Env}
use django_oauth_toolkit.Models.Rows.{
  AccessToken, is_expired, allow_scopes, is_valid, allows_audience,
}
use django_oauth_toolkit.Models.Database.{Database}
use django_oauth_toolkit.ResourceServer.Bearer.Cache.{IsCached, answer-IsCached}
use django_oauth_toolkit.ResourceServer.Bearer.{
  Authentication, ResourceServer, given, authentication, text_of, load_access_token, is_good,
  judged_token, before_query, Refusal, unknown, rejected, accepted, oauth2_error, application_of,
  usable_application, check_valid, judge, validate_bearer_token,
}

-- Where a judged token comes from: the database, which is left as it was, or, if the stored token is
-- not good, what the configured introspection endpoint answers for this token.
abbrev IsOrigin :
    ResourceServer → Env → String → List String → Database → Database → AccessToken → Type 0
IsOrigin r env token scopes db db' a =
    ((load_access_token env token db ≡ some a) × (db' ≡ db))
    ⊎ ((url : String) × (how : Authentication) × (given r.introspection_url ≡ some url)
        × (authentication r ≡ some how)
        × (is_good env scopes (load_access_token env token db) ≡ false)
        × IsCached r env token (r.introspect url token how) db db' a)

stored-IsOrigin :
    (r : ResourceServer) (env : Env) (token : String) (scopes : List String) (db db' : Database)
    (a : AccessToken)
    → ◌≡◌ {A = Option AccessToken × Database} (load_access_token env token db, db) (some a, db')
    → IsOrigin r env token scopes db db' a
stored-IsOrigin r env token scopes db db' a h = inl (ap (λ x. x.0) h, sym (ap (λ x. x.1) h))

judged-IsOrigin :
    (r : ResourceServer) (env : Env) (token : String) (scopes : List String) (db db' : Database)
    (a : AccessToken)
    → judged_token r env token scopes db ≡ (some a, db')
    → IsOrigin r env token scopes db db' a
unfolding judged_token
judged-IsOrigin r env token scopes db db' a h =
    elim (Bool-cases (is_good env scopes (load_access_token env token db))) [
      | inl good ↦ stored-IsOrigin r env token scopes db db' a (rw (judged_token, good) at h)
      | inr bad ↦ elim (Option-cases (given r.introspection_url)) [
        | inl none_url ↦
            stored-IsOrigin r env token scopes db db' a (rw (judged_token, bad, none_url) at h)
        | inr (url, e) ↦ elim (Option-cases (authentication r)) [
          | inl none_how ↦
              stored-IsOrigin r env token scopes db db' a (rw (judged_token, bad, e, none_how) at h)
          | inr (how, f) ↦ inr (
            url,
            how,
            e,
            f,
            bad,
            answer-IsCached r env token (r.introspect url token how) db db' a
                (rw (judged_token, bad, e, f) at h),
          )
        ]
      ]
    ]

-- What an accepted token is.
pub record IsAcceptable (r : ResourceServer) (env : Env) (token : String) (scopes : List String)
    (uri : Option String) (db db' : Database) (a : AccessToken) : Type 0 where
  pub given_token : str_eq token "" ≡ false
  pub origin : IsOrigin r env token scopes db db' a
  pub valid : is_valid env.now (some a.expires) a.scope scopes ≡ true
  pub audience : allows_audience r.audience_validator a.resource (before_query (text_of uri)) ≡ true
  pub usable_by : usable_application r (application_of db' a.application) ≡ true

accepted_injective : {a b : AccessToken} → accepted a ≡ accepted b → a ≡ b
accepted_injective h = cc

check_valid-get :
    (r : ResourceServer) (uri : Option String) (b a : AccessToken) (db : Database)
    → check_valid r uri b db ≡ accepted a
    → (b ≡ a)
      × (allows_audience r.audience_validator b.resource (before_query (text_of uri)) ≡ true)
      × (usable_application r (application_of db b.application) ≡ true)
unfolding check_valid
check_valid-get r uri b a db h =
    elim (Bool-cases
      (allows_audience r.audience_validator b.resource (before_query (text_of uri)))) [
        | inr wrong ↦ cc (rw (check_valid, wrong) at h)
        | inl right ↦ elim (Bool-cases (usable_application r (application_of db b.application))) [
          | inr off ↦ cc (rw (check_valid, right, off) at h)
          | inl on ↦ (accepted_injective (rw (check_valid, right, on) at h), right, on)
        ]
      ]

judge-get :
    (r : ResourceServer) (env : Env) (scopes : List String) (uri : Option String)
    (o : Option AccessToken) (a : AccessToken) (db : Database)
    → judge r env scopes uri o db ≡ accepted a
    → (o ≡ some a)
      × (is_valid env.now (some a.expires) a.scope scopes ≡ true)
      × (allows_audience r.audience_validator a.resource (before_query (text_of uri)) ≡ true)
      × (usable_application r (application_of db a.application) ≡ true)
judge-get r env scopes uri none a db h = cc
judge-get r env scopes uri (some b) a db h = elim (Bool-cases (is_good env scopes (some b))) [
  | inr bad ↦ cc (rw bad at h)
  | inl good ↦
      let (same, right, on) = check_valid-get r uri b a db (rw good at h) in
      (
        ap some same,
        ap (λ x. is_good env scopes (some x)) (sym same) ∙ good,
        ap
              (λ (x : AccessToken).
                allows_audience r.audience_validator x.resource (before_query (text_of uri)))
              (sym same)
            ∙ right,
        ap (λ (x : AccessToken). usable_application r (application_of db x.application)) (sym same)
            ∙ on,
      )
]

-- A request gets through only with a token that is stored, or that the configured introspection
-- endpoint says is active and that is then cached; the token has not expired, has the scopes, allows
-- the audience of the request, and its application is usable.
pub validate_bearer_token-IsAcceptable :
    (r : ResourceServer) (env : Env) (token : String) (scopes : List String) (uri : Option String)
    (db db' : Database) (a : AccessToken)
    → validate_bearer_token r env token scopes uri db ≡ (accepted a, db')
    → IsAcceptable r env token scopes uri db db' a
unfolding validate_bearer_token
validate_bearer_token-IsAcceptable r env token scopes uri db db' a h =
    elim (Bool-cases (str_eq token "")) [
      | inl empty ↦ cc (rw (validate_bearer_token, empty) at h)
      | inr given_token ↦
          let j = judged_token r env token scopes db in
          let pair : (judge r env scopes uri j.0 j.1, j.1) ≡ (accepted a, db') =
            rw (validate_bearer_token, given_token) at h in
          let same_db : j.1 ≡ db' = ap (λ x. x.1) pair in
          let (found, valid, audience, usable_by) =
            judge-get r env scopes uri j.0 a j.1 (ap (λ x. x.0) pair) in
          record {
            given_token = given_token;
            origin = judged-IsOrigin r env token scopes db db' a (cc (found, same_db));
            valid = valid;
            audience = audience;
            usable_by =
                ap (λ d. usable_application r (application_of d a.application)) (sym same_db)
                ∙ usable_by;
          }
    ]

-- A token that is refused for its validity is missing, expired or lacks a scope: the error without a
-- description is never given.
known_error :
    (env : Env) (scopes : List String) (a : AccessToken)
    → is_good env scopes (some a) ≡ false
    → oauth2_error env scopes (some a) ≢ unknown
unfolding oauth2_error is_valid
known_error env scopes a bad = λ h. elim (Bool-cases (is_expired env.now (some a.expires))) [
  | inl late ↦ cc (rw (oauth2_error, late) at h)
  | inr timely ↦ elim (Bool-cases (allow_scopes a.scope scopes)) [
    | inl wide ↦ cc (rw (is_valid, timely, wide) at bad)
    | inr narrow ↦ cc (rw (oauth2_error, timely, narrow) at h)
  ]
]

rejected_injective : {e f : Refusal} → rejected e ≡ rejected f → e ≡ f
rejected_injective h = cc

valid_known :
    (r : ResourceServer) (uri : Option String) (a : AccessToken) (db : Database)
    → check_valid r uri a db ≢ rejected unknown
unfolding check_valid
valid_known r uri a db = λ h.
    elim (Bool-cases
      (allows_audience r.audience_validator a.resource (before_query (text_of uri)))) [
        | inr wrong ↦ cc (rw (check_valid, wrong) at h)
        | inl right ↦ elim (Bool-cases (usable_application r (application_of db a.application))) [
          | inr off ↦ cc (rw (check_valid, right, off) at h)
          | inl on ↦ cc (rw (check_valid, right, on) at h)
        ]
      ]

judge-known :
    (r : ResourceServer) (env : Env) (scopes : List String) (uri : Option String)
    (o : Option AccessToken) (db : Database)
    → judge r env scopes uri o db ≢ rejected unknown
unfolding oauth2_error check_valid
judge-known r env scopes uri none db = λ h. cc
judge-known r env scopes uri (some a) db = λ h. elim (Bool-cases (is_good env scopes (some a))) [
  | inr bad ↦ known_error env scopes a bad (rejected_injective (rw bad at h))
  | inl good ↦ valid_known r uri a db (rw good at h)
]

-- validate_bearer_token never refuses a token with the error for an unknown reason.
pub validate_bearer_token_known :
    (r : ResourceServer) (env : Env) (token : String) (scopes : List String) (uri : Option String)
    (db : Database)
    → (validate_bearer_token r env token scopes uri db).0 ≢ rejected unknown
unfolding validate_bearer_token
validate_bearer_token_known r env token scopes uri db = λ h. elim (Bool-cases (str_eq token "")) [
  | inl empty ↦ cc (rw (validate_bearer_token, empty) at h)
  | inr given_token ↦
      let j = judged_token r env token scopes db in
      judge-known r env scopes uri j.0 j.1 (rw (validate_bearer_token, given_token) at h)
]
