-- ===== src/Validator/Bearer/Roundtrip.antt =====
-- `validate_refresh_token` accepts the refresh tokens that `save_bearer_token` hands out.
use text.Mathlib.TextEquality.{eq_iff as text_eq_iff}
use django_oauth_toolkit.Prelude.{
  ℕ, String, ◌≡◌, ◌≢◌, refl, sym, ◌∙◌, ap, inl, true, false, Option, none, some, arith,
}
use django_oauth_toolkit.Settings.{Env, Result, ok, err, >>=-eq-ok}
use django_oauth_toolkit.Models.Rows.{Application, RefreshToken}
use django_oauth_toolkit.Models.Database.{Database}
use django_oauth_toolkit.Models.Revoke.{refresh_token_expire_timedelta}
use django_oauth_toolkit.Models.Invariant.Defs.{SourcedTo, IsWellFormed}
use django_oauth_toolkit.Validator.Request.{Request, TokenDict, client_pk}
use django_oauth_toolkit.Validator.Resource.{check_and_set_request_resource}
use django_oauth_toolkit.Validator.Refresh.{attach, outlived, validate_refresh_token}
use django_oauth_toolkit.Validator.Refresh.Verdict.{validate_refresh_token_accepts_iff}
use django_oauth_toolkit.Validator.Create.{new_access, mint_pair, source_of, family_of}
use django_oauth_toolkit.Validator.Bearer.{
  save_with_refresh, store_tokens, save_scoped, save_bearer_token, with_user, given_code, expiry,
  atomic,
}
use django_oauth_toolkit.Validator.Bearer.Mint.{mint_pair-IsMinted}
use django_oauth_toolkit.Validator.Bearer.Issued.{
  created-found, created-live, created-application, created-family, minted-bound,
}
use django_oauth_toolkit.Validator.Bearer.Transaction.{checked-keeps}

-- A later environment that hashes alike, in which an access token with the given expiry has not
-- outlived the refresh lifetime, if one is configured.
pub record IsInTime (env later : Env) (expires : ℕ) : Type 0 where
  pub same_hash : later.sha256 ≡ env.sha256
  pub lifetime : Option ℕ
  pub configured :
      refresh_token_expire_timedelta later.settings.refresh_token_expire_seconds ≡ ok lifetime
  pub in_time : outlived lifetime expires later.now ≡ false

-- The refresh token is accepted for the client, whatever the request holds beside, and is of the family.
pub record IsUsable (later : Env) (code : String) (client : Application) (family : Option ℕ)
    (db : Database) : Type 0 where
  pub row : RefreshToken
  pub member : row.token_family ≡ family
  pub accepted :
      (request : Request)
      → validate_refresh_token later code client request db ≡ ok (true, attach code row request, db)

module _ (env later : Env) (expires : ℕ) (token : TokenDict) (scope code : String)
    (client : Application) (given : code ≢ "") (time : IsInTime env later expires) where
  pub mint-IsUsable :
      (request : Request) (previous : Option RefreshToken) (db db' : Database)
      → IsWellFormed env.sha256 db
      → SourcedTo db.refresh_tokens (client_pk request) (source_of previous)
      → client_pk request ≡ some client.pk
      → mint_pair env expires request token scope code previous db ≡ ok db'
      → IsUsable later code client (family_of env previous) db'
  unfolding new_access
  mint-IsUsable request previous db db' w source own h =
      let m = mint_pair-IsMinted env expires request token scope code previous db db' h in
      let both : some m.row.application ≡ some client.pk =
        sym (created-application m.created) ∙ own in
      record {
        row = m.row;
        member = created-family m.created;
        accepted = λ r.
            (validate_refresh_token_accepts_iff later code client r db' (attach code m.row r) db').1
              (record {
                row = m.row;
                found = rw time.same_hash (created-found m.created given);
                own = cc;
                good = inl (record {
                  never_revoked = created-live m.created;
                  access = new_access env expires request token scope (source_of previous) db;
                  bound = minted-bound m w refl refl source;
                  lifetime = time.lifetime;
                  configured = time.configured;
                  in_time = time.in_time;
                });
                attached = refl;
                unchanged = refl;
              });
      }

  first-IsUsable :
      (request : Request) (db : Database) (o : Option RefreshToken) (token' : TokenDict)
      (request' : Request) (db' : Database)
      → IsWellFormed env.sha256 db
      → o ≡ none
      → client_pk request ≡ some client.pk
      → save_with_refresh env expires request token scope code db o ≡ ok (token', request', db')
      → IsUsable later code client (some env.uuid4) db'
  unfolding save_with_refresh
  first-IsUsable request db (some r) token' request' db' w e own h = cc
  first-IsUsable request db none token' request' db' w e own h =
      let (minted, f, k) = >>=-eq-ok (mint_pair env expires request token scope code none db) _ h in
      let same : db' ≡ minted = cc in rw same (mint-IsUsable request none db minted w tt own f)

pub given_code-some :
    (o : Option String) (code : String) → o ≡ some code → code ≢ "" → given_code o ≡ some code
given_code-some o code e given = rw e (ground (arith, text_eq_iff code ""))

-- What a transaction that returned has computed.
pub atomic-ok :
    (db : Database) (m : Result (TokenDict × Request × Database)) (token' : TokenDict)
    (request' : Request) (db' : Database)
    → atomic db m ≡ (ok (token', request'), db')
    → m ≡ ok (token', request', db')
atomic-ok db (ok (t, r, d)) token' request' db' h = cc
atomic-ok db (err e) token' request' db' h = cc

-- What a call of `save_bearer_token` that returned has stored, for a token dictionary with a scope and
-- a refresh token: the resource check has passed.
pub record IsSaved (env : Env) (token : TokenDict) (request : Request) (db : Database)
    (code : String) (token' : TokenDict) (request' : Request) (db' : Database) : Type 0 where
  pub scope : String
  pub checked : Request
  pub own : client_pk (with_user checked) ≡ client_pk request
  pub same : (with_user checked).refresh_token_instance ≡ request.refresh_token_instance
  pub saved :
      save_with_refresh env
        (expiry env token)
        (with_user checked)
        token
        scope
        code
        db
        (with_user checked).refresh_token_instance
      ≡ ok (token', request', db')

pub save_scoped-IsSaved :
    (env : Env) (token : TokenDict) (request : Request) (db : Database) (o : Option String)
    (code : String) (token' : TokenDict) (request' : Request) (db' : Database)
    → given_code token.refresh_token ≡ some code
    → save_scoped env token request db o ≡ ok (token', request', db')
    → IsSaved env token request db code token' request' db'
unfolding save_scoped store_tokens
save_scoped-IsSaved env token request db none code token' request' db' given h = cc
save_scoped-IsSaved env token request db (some scope) code token' request' db' given h =
    let (checked, e, f) = >>=-eq-ok (check_and_set_request_resource env request db) _ h in
    let (own, same) = checked-keeps env request checked db e in
    record {
      scope = scope;
      checked = checked;
      own = own;
      same = same;
      saved =
          sym (ap (store_tokens env (expiry env token) (with_user checked) token scope db) given)
          ∙ f;
    }

-- A refresh token that `save_bearer_token` stores for a request that presented none is accepted later
-- by `validate_refresh_token` for the request's client, and starts a family of its own. Conditions:
-- the call returned, the tables were well-formed, the refresh token is not empty, and at the later time
-- the access token has not outlived the lifetime of refresh tokens.
pub issued_token_accepted :
    (env later : Env) (token : TokenDict) (request : Request) (db : Database) (client : Application)
    (code : String) (token' : TokenDict) (request' : Request) (db' : Database)
    → IsWellFormed env.sha256 db
    → token.refresh_token ≡ some code
    → code ≢ ""
    → request.refresh_token_instance ≡ none
    → client_pk request ≡ some client.pk
    → IsInTime env later (expiry env token)
    → save_bearer_token env token request db ≡ (ok (token', request'), db')
    → IsUsable later code client (some env.uuid4) db'
unfolding save_bearer_token
issued_token_accepted env later token request db client code token' request' db' w has given fresh
      own time h =
    let s =
      save_scoped-IsSaved env token request db token.scope code token' request' db'
        (given_code-some token.refresh_token code has given)
        (atomic-ok db (save_scoped env token request db token.scope) token' request' db' h) in
    first-IsUsable env later (expiry env token) token s.scope code client given time
      (with_user s.checked) db (with_user s.checked).refresh_token_instance token' request' db' w
      (s.same ∙ fresh) (s.own ∙ own) s.saved
