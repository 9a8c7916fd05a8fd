-- ===== src/Validator/Bearer/Rotation.antt =====
-- Rotation: what the branch of `save_bearer_token` that revokes the presented refresh token leaves.
use django_oauth_toolkit.Prelude.{
  is_some, ℕ, String, ◌≡◌, ◌≢◌, sym, ◌∙◌, ap, inl, inr, Bool, true, Option, none, some, List, [],
  ◌∷◌, ◌++◌, arith, if-cases, ==_refl, find?, find?-append, find?-All,
}
use django_oauth_toolkit.Settings.{Env, ok, >>=-eq-ok}
use django_oauth_toolkit.Models.Rows.{Application, AccessToken, RefreshToken}
use django_oauth_toolkit.Models.Database.{Database, find_refresh, successor}
use django_oauth_toolkit.Models.Revoke.{revoke}
use django_oauth_toolkit.Models.Invariant.Defs.{SourcedTo, IsWellFormed}
use django_oauth_toolkit.Models.Invariant.Revokes.{revoke-IsWellFormed}
use django_oauth_toolkit.Models.Invariant.Spent.{revoke-SourcedTo}
use django_oauth_toolkit.Validator.Request.{Request, TokenDict, client_pk}
use django_oauth_toolkit.Validator.Create.{new_access, mint_pair}
use django_oauth_toolkit.Validator.Bearer.{
  rotate_locked, rotate, save_presented, save_with_refresh, save_scoped, save_bearer_token,
  with_user, expiry,
}
use django_oauth_toolkit.Validator.Bearer.Mint.{mint_pair-IsMinted}
use django_oauth_toolkit.Validator.Bearer.Roundtrip.{
  IsInTime, IsUsable, mint-IsUsable, given_code-some, atomic-ok, save_scoped-IsSaved,
}

-- The refresh token with the given key is stored, revoked, and has a successor.
pub record IsSuperseded (k : ℕ) (db : Database) : Type 0 where
  pub row : RefreshToken
  pub found : find_refresh k db.refresh_tokens ≡ some row
  pub spent : is_some row.revoked ≡ true
  pub replaced : is_some (successor db k) ≡ true

find?-append_some {ℓ} :
    {A : Type ℓ} (p : A → Bool) (xs : List A) (a : A)
    → p a ≡ true
    → is_some (find? p (xs ++ a ∷ [])) ≡ true
find?-append_some p [] a h = ground arith
find?-append_some p (x ∷ xs) a h = ground (arith, find?-append_some p xs a h)

module _ (env : Env) (expires : ℕ) (token : TokenDict) (scope code : String) where
  -- Minting keeps a revoked refresh token, and gives it a successor.
  mint-IsSuperseded :
      (request : Request) (r : RefreshToken) (application : Option ℕ) (db db' : Database)
      → SourcedTo db.refresh_tokens application (some r.pk)
      → mint_pair env expires request token scope code (some r) db ≡ ok db'
      → IsSuperseded r.pk db'
  unfolding new_access
  mint-IsSuperseded request r application db db' (s, found, own, spent) h =
      let m = mint_pair-IsMinted env expires request token scope code (some r) db db' h in
      let access = new_access env expires request token scope (some r.pk) db in
      record {
        row = s;
        found = rw (m.created.tables, m.stored) (find?-append _ db.refresh_tokens _ s found);
        spent = spent;
        replaced =
            rw (m.created.tables, m.stored)
              (find?-append_some _ db.access_tokens access (==_refl r.pk));
      }

-- What rotation leaves: the new refresh token is accepted and of the old one's family, the old one is
-- superseded.
pub record IsRotated (later : Env) (code : String) (client : Application) (r : RefreshToken)
    (db' : Database) : Type 0 where
  pub new : IsUsable later code client r.token_family db'
  pub old : IsSuperseded r.pk db'

module _ (env later : Env) (expires : ℕ) (token : TokenDict) (scope code : String)
    (client : Application) (given : code ≢ "") (time : IsInTime env later expires)
    (r : RefreshToken) (db : Database) (w : IsWellFormed env.sha256 db)
    (stored : find_refresh r.pk db.refresh_tokens ≡ some r) (theirs : r.application ≡ client.pk)
    (unused : successor db r.pk ≡ none) (token' : TokenDict) (request' : Request)
    (db' : Database) where
  rotate_locked-IsRotated :
      (request : Request) (o : Option AccessToken)
      → o ≡ none
      → client_pk request ≡ some client.pk
      → rotate_locked env expires request token scope code r db o ≡ ok (token', request', db')
      → IsRotated later code client r db'
  unfolding rotate_locked
  rotate_locked-IsRotated request (some a) e own h = cc
  rotate_locked-IsRotated request none e own h =
      let before = revoke env r.pk db in
      let (minted, f, k) =
        >>=-eq-ok (mint_pair env expires request token scope code (some r) before) _ h in
      let same : db' ≡ minted = cc in
      let source = revoke-SourcedTo env db r.pk r stored in
      let theirs' : some r.application ≡ client_pk request = ap some theirs ∙ sym own in
      rw same (record {
        new =
            mint-IsUsable env later expires token scope code client given time request (some r)
              before minted (revoke-IsWellFormed env r.pk db w) (rw (sym theirs') source) own f;
        old = mint-IsSuperseded env expires token scope code request r _ before minted source f;
      })

  rotate-IsRotated :
      (request : Request) (o : Option RefreshToken)
      → o ≡ some r
      → client_pk request ≡ some client.pk
      → rotate env expires request token scope code db o ≡ ok (token', request', db')
      → IsRotated later code client r db'
  unfolding rotate
  rotate-IsRotated request none e own h = cc
  rotate-IsRotated request (some s) e own h =
      let same : s ≡ r = cc in
      rotate_locked-IsRotated (record request { refresh_token_instance = none }) (successor db r.pk)
        unused own
        (ap
            (λ t.
              rotate_locked env expires (record request { refresh_token_instance = none }) token
                scope code t db (successor db t.pk))
            (sym same)
          ∙ h)

  presented-IsRotated :
      (request : Request) (o : Option ℕ) (instance : RefreshToken)
      → env.settings.rotate_refresh_token ≡ true
      → find_refresh instance.pk db.refresh_tokens ≡ some r
      → client_pk request ≡ some client.pk
      → save_presented env expires request token scope code db instance o
        ≡ ok (token', request', db')
      → IsRotated later code client r db'
  unfolding save_presented
  presented-IsRotated request none instance on found own h = rotate-IsRotated request _ found own h
  presented-IsRotated request (some k) instance on found own h =
      elim (if-cases env.settings.rotate_refresh_token _ _ h) [
        | inl (rotated, h') ↦ rotate-IsRotated request _ found own h'
        | inr (kept, h') ↦ cc
      ]

  saved-IsRotated :
      (request : Request) (o : Option RefreshToken) (instance : RefreshToken)
      → o ≡ some instance
      → env.settings.rotate_refresh_token ≡ true
      → find_refresh instance.pk db.refresh_tokens ≡ some r
      → client_pk request ≡ some client.pk
      → save_with_refresh env expires request token scope code db o ≡ ok (token', request', db')
      → IsRotated later code client r db'
  unfolding save_with_refresh
  saved-IsRotated request none instance e on found own h = cc
  saved-IsRotated request (some s) instance e on found own h =
      let same : s ≡ instance = cc in
      presented-IsRotated request s.access_token s on
        (ap (λ t. find_refresh t.pk db.refresh_tokens) same ∙ found) own h

-- With ROTATE_REFRESH_TOKEN on, a call of `save_bearer_token` for a request that presented a refresh
-- token leaves the row of that token revoked and with a successor, while the new refresh token is
-- accepted later by `validate_refresh_token` for the client, in the family of the old one. Conditions:
-- the call returned, the tables were well-formed, the presented token's row is stored, of the request's
-- client and had no successor, the new token is not empty, and at the later time the new access token
-- has not outlived the lifetime of refresh tokens.
pub rotation :
    (env later : Env) (token : TokenDict) (request : Request) (db : Database) (client : Application)
    (code : String) (instance r : RefreshToken) (token' : TokenDict) (request' : Request)
    (db' : Database)
    → IsWellFormed env.sha256 db
    → token.refresh_token ≡ some code
    → code ≢ ""
    → env.settings.rotate_refresh_token ≡ true
    → request.refresh_token_instance ≡ some instance
    → find_refresh instance.pk db.refresh_tokens ≡ some r
    → r.application ≡ client.pk
    → successor db r.pk ≡ none
    → client_pk request ≡ some client.pk
    → IsInTime env later (expiry env token)
    → save_bearer_token env token request db ≡ (ok (token', request'), db')
    → IsRotated later code client r db'
unfolding save_bearer_token
rotation env later token request db client code instance r token' request' db' w has given on
      presented found theirs unused own time h =
    let s =
      save_scoped-IsSaved env token request db token.scope code token' request' db'
        (given_code-some token.refresh_token code has given)
        (atomic-ok db (save_scoped env token request db token.scope) token' request' db' h) in
    saved-IsRotated env later (expiry env token) token s.scope code client given time r db w
      (find?-All _ _ db.refresh_tokens r w.keyed_refresh found) theirs unused token' request' db'
      (with_user s.checked) (with_user s.checked).refresh_token_instance instance
      (s.same ∙ presented) on found (s.own ∙ own) s.saved
