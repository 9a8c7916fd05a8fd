-- ===== src/Validator/Bearer/Transaction.antt =====
-- `save_bearer_token` as a whole keeps the token tables well-formed, after
-- `validate_refresh_token` has accepted the token.
use django_oauth_toolkit.Prelude.{
  String, ◌≡◌, refl, sym, ◌∙◌, ap, true, Option, none, some, arith, find?-All,
}
use django_oauth_toolkit.Settings.{Env, Result, ok, err, >>=-eq-ok}
use django_oauth_toolkit.Models.Rows.{RefreshToken}
use django_oauth_toolkit.Models.Database.{Database}
use django_oauth_toolkit.Models.Invariant.Defs.{IsWellFormed}
use mathlib.Core.Path.{subst}
use django_oauth_toolkit.Validator.Request.{Request, TokenDict, client_pk}
use django_oauth_toolkit.Validator.Resource.{
  check_and_set_request_resource, validate_resource_uris, requested, inherited,
}
use django_oauth_toolkit.Validator.Bearer.{
  save_scoped, save_bearer_token, with_user, given_code, expiry, atomic,
}
use django_oauth_toolkit.Models.Rows.{Application}
use django_oauth_toolkit.Validator.Refresh.{validate_refresh_token}
use django_oauth_toolkit.Validator.Refresh.Verdict.{validate_refresh_token_accepts_iff}
use django_oauth_toolkit.Validator.Bearer.Stored.{IsReady}
use django_oauth_toolkit.Validator.Bearer.Rotates.{store_tokens-IsWellFormed}

-- The resource check and the grant type change neither the client nor the presented token.
pub checked-keeps :
    (env : Env) (request checked : Request) (db : Database)
    → check_and_set_request_resource env request db ≡ ok checked
    → (client_pk (with_user checked) ≡ client_pk request)
      × ((with_user checked).refresh_token_instance ≡ request.refresh_token_instance)
unfolding check_and_set_request_resource
checked-keeps env request checked db h =
    let wanted = requested request.resource request.decoded_body in
    let (u, e, f) = >>=-eq-ok (validate_resource_uris env wanted) _ h in
    let (rs, g, k) = >>=-eq-ok (inherited env request db wanted) _ f in ground arith

IsReady-client :
    (request checked : Request) (db : Database)
    → client_pk checked ≡ client_pk request
    → (o : Option RefreshToken) → IsReady db request o
    → IsReady db checked o
IsReady-client request checked db own none p = tt
IsReady-client request checked db own (some r) p = record {
  linked = p.linked;
  own = own ∙ p.own;
  locked = p.locked;
}

IsReady-kept :
    (request checked : Request) (db : Database)
    → client_pk checked ≡ client_pk request
    → checked.refresh_token_instance ≡ request.refresh_token_instance
    → IsReady db request request.refresh_token_instance
    → IsReady db checked checked.refresh_token_instance
IsReady-kept request checked db own same p =
    subst (IsReady db checked) (sym same)
      (IsReady-client request checked db own request.refresh_token_instance p)

module _ (env : Env) (token : TokenDict) (request : Request) (db : Database) where
  save_scoped-IsWellFormed :
      (o : Option String) (token' : TokenDict) (request' : Request) (db' : Database)
      → IsWellFormed env.sha256 db
      → IsReady db request request.refresh_token_instance
      → save_scoped env token request db o ≡ ok (token', request', db')
      → IsWellFormed env.sha256 db'
  unfolding save_scoped
  save_scoped-IsWellFormed none token' request' db' w p h = cc
  save_scoped-IsWellFormed (some scope) token' request' db' w p h =
      let (checked, e, f) = >>=-eq-ok (check_and_set_request_resource env request db) _ h in
      let (own, same) = checked-keeps env request checked db e in
      store_tokens-IsWellFormed env (expiry env token) token scope (with_user checked) db
        (given_code token.refresh_token) token' request' db' w
        (IsReady-kept request (with_user checked) db own same p) f

  atomic-IsWellFormed :
      (m : Result (TokenDict × Request × Database))
      → IsWellFormed env.sha256 db
      → ((token' : TokenDict) (request' : Request) (db' : Database)
          → m ≡ ok (token', request', db')
          → IsWellFormed env.sha256 db')
      → IsWellFormed env.sha256 (atomic db m).1
  atomic-IsWellFormed (ok (token', request', db')) w h = h token' request' db' refl
  atomic-IsWellFormed (err e) w h = w

  -- `save_bearer_token` leaves well-formed tables well-formed, whether it returns or raises. If the
  -- request carries a refresh token, that is of the request's client, its access token, if it names
  -- one, is stored and of that client, and its row, if it is stored, is of that client.
  -- Well-formed: primary keys are unique and below the next one; a refresh token's checksum is that
  -- of its token, unless that is redacted; a revoked one has no access token; the access token of a
  -- refresh token is stored and of its client; and the refresh token that an access token was minted
  -- with is stored, revoked, and of the same client.
  pub save_bearer_token-IsWellFormed :
      IsWellFormed env.sha256 db
      → IsReady db request request.refresh_token_instance
      → IsWellFormed env.sha256 (save_bearer_token env token request db).1
  unfolding save_bearer_token
  save_bearer_token-IsWellFormed w p =
      atomic-IsWellFormed (save_scoped env token request db token.scope) w
        (λ token' request' db' h. save_scoped-IsWellFormed token.scope token' request' db' w p h)

-- What `validate_refresh_token` leaves when it accepts a token for the client of the request is what
-- `save_bearer_token` asks for, in well-formed tables.
pub validate_refresh_token-IsReady :
    (env : Env) (token : String) (client : Application) (request request' : Request)
    (db db' : Database)
    → IsWellFormed env.sha256 db
    → client_pk request ≡ some client.pk
    → validate_refresh_token env token client request db ≡ ok (true, request', db')
    → IsReady db' request' request'.refresh_token_instance
validate_refresh_token-IsReady env token client request request' db db' w own h =
    let a = (validate_refresh_token_accepts_iff env token client request db request' db').0 h in
    rw (a.attached, a.unchanged)
      (record {
        linked = find?-All _ _ db.refresh_tokens a.row w.linked a.found;
        own = own ∙ ap some (sym a.own);
        locked = λ r found.
            let both : some r ≡ some a.row =
              sym found ∙ find?-All _ _ db.refresh_tokens a.row w.keyed_refresh a.found in
            let same : r ≡ a.row = cc in ap (λ s. s.application) same;
      })
