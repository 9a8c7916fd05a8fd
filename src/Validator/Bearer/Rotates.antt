-- ===== src/Validator/Bearer/Rotates.antt =====
-- Rotation, and storing the tokens of a request, keep the token tables well-formed.
use django_oauth_toolkit.Prelude.{
  points_to-eq, is_some, ℕ, String, ◌≡◌, refl, sym, ◌∙◌, ap, inl, inr, true, Option, none, some,
  if-cases, find?-test, find?-All,
}
use django_oauth_toolkit.Settings.{Env, ok, >>=-eq-ok}
use django_oauth_toolkit.Models.Rows.{AccessToken, RefreshToken}
use django_oauth_toolkit.Models.Database.{Database, find_refresh, successor, insert_access}
use django_oauth_toolkit.Models.Revoke.{revoke}
use django_oauth_toolkit.Models.Invariant.Defs.{LinkedTo, SourcedTo, IsWellFormed}
use django_oauth_toolkit.Models.Invariant.Inserts.{with_access-IsWellFormed}
use django_oauth_toolkit.Models.Invariant.Revokes.{revoke-IsWellFormed}
use django_oauth_toolkit.Models.Invariant.Spent.{revoke-SourcedTo, revoke_spent}
use mathlib.Core.Path.{subst}
use django_oauth_toolkit.Validator.Request.{Request, TokenDict, client_pk}
use django_oauth_toolkit.Validator.Create.{new_access, mint_pair}
use django_oauth_toolkit.Validator.Bearer.{
  renew, answer_again, rotate_locked, rotate, save_presented, save_with_refresh, store_tokens,
}
use django_oauth_toolkit.Validator.Bearer.Mint.{insert_access-ok}
use django_oauth_toolkit.Validator.Bearer.Stored.{
  IsPresented, IsReady, mint-IsWellFormed, renew-IsWellFormed, answer_again-IsWellFormed,
}

module _ (env : Env) (expires : ℕ) (token : TokenDict) (scope : String) where
  -- What minted an access token for the client of a refresh token is revoked.
  successor-spent :
      (db : Database) (r : RefreshToken) (access : AccessToken)
      → IsWellFormed env.sha256 db
      → find_refresh r.pk db.refresh_tokens ≡ some r
      → successor db r.pk ≡ some access
      → (access.application ≡ some r.application) × (is_some r.revoked ≡ true)
  successor-spent db r access w found next =
      let source : access.source_refresh_token ≡ some r.pk =
        points_to-eq access.source_refresh_token r.pk (find?-test _ db.access_tokens access next) in
      let (s, at, own, spent) =
        subst (SourcedTo db.refresh_tokens access.application) source
          (find?-All _ _ db.access_tokens access w.sourced next) in
      let both : some s ≡ some r = sym at ∙ found in
      let same : s ≡ r = cc in
      (own ∙ ap (λ t. some t.application) same, ap (λ t. is_some t.revoked) (sym same) ∙ spent)

  rotate_locked-IsWellFormed :
      (request : Request) (code : String) (r : RefreshToken) (db : Database)
      (o : Option AccessToken) (token' : TokenDict) (request' : Request) (db' : Database)
      → IsWellFormed env.sha256 db
      → find_refresh r.pk db.refresh_tokens ≡ some r
      → client_pk request ≡ some r.application
      → successor db r.pk ≡ o
      → rotate_locked env expires request token scope code r db o ≡ ok (token', request', db')
      → IsWellFormed env.sha256 db'
  unfolding rotate_locked
  rotate_locked-IsWellFormed request code r db none token' request' db' w found own next h =
      let (minted, e, k) =
        >>=-eq-ok (mint_pair env expires request token scope code (some r) (revoke env r.pk db)) _
          h in
      let same : db' ≡ minted = cc in
      rw same (
        mint-IsWellFormed env expires token scope request code (some r) (revoke env r.pk db) minted
          (revoke-IsWellFormed env r.pk db w) (rw own (revoke-SourcedTo env db r.pk r found)) e)
  rotate_locked-IsWellFormed request code r db (some access) token' request' db' w found own next
        h =
      let (same_app, spent) = successor-spent db r access w found next in
      let ((t, after), e, k) =
        >>=-eq-ok (answer_again env request token code access (some r) (revoke env r.pk db)) _ h in
      let same : db' ≡ after = cc in
      rw same (
        answer_again-IsWellFormed env expires token scope request code access (some r) db t after w
          (find?-All _ _ db.access_tokens access w.keyed_access next) (same_app ∙ sym own)
          (ap (answer_again env request token code access (some r))
              (sym (revoke_spent env db r.pk r w found spent))
            ∙ e))

  rotate-IsWellFormed :
      (request : Request) (code : String) (k application : ℕ) (db : Database)
      (o : Option RefreshToken) (token' : TokenDict) (request' : Request) (db' : Database)
      → IsWellFormed env.sha256 db
      → find_refresh k db.refresh_tokens ≡ o
      → client_pk request ≡ some application
      → ((r : RefreshToken)
          → find_refresh k db.refresh_tokens ≡ some r
          → r.application ≡ application)
      → rotate env expires request token scope code db o ≡ ok (token', request', db')
      → IsWellFormed env.sha256 db'
  unfolding rotate
  rotate-IsWellFormed request code k application db none token' request' db' w found own locked h =
      cc
  rotate-IsWellFormed request code k application db (some r) token' request' db' w found own locked
        h =
      rotate_locked-IsWellFormed (record request { refresh_token_instance = none }) code r db
        (successor db r.pk) token' request' db' w
        (find?-All _ _ db.refresh_tokens r w.keyed_refresh found)
        (own ∙ ap some (sym (locked r found))) refl h

  save_presented-IsWellFormed :
      (request : Request) (code : String) (db : Database) (instance : RefreshToken) (o : Option ℕ)
      (token' : TokenDict) (request' : Request) (db' : Database)
      → IsWellFormed env.sha256 db
      → IsPresented db request instance
      → instance.access_token ≡ o
      → save_presented env expires request token scope code db instance o
        ≡ ok (token', request', db')
      → IsWellFormed env.sha256 db'
  unfolding save_presented
  save_presented-IsWellFormed request code db instance none token' request' db' w p bound h =
      rotate-IsWellFormed request code instance.pk instance.application db _ token' request' db' w
        refl p.own p.locked h
  save_presented-IsWellFormed request code db instance (some k) token' request' db' w p bound h =
      elim (if-cases env.settings.rotate_refresh_token _ _ h) [
        | inl (rotated, k') ↦
            rotate-IsWellFormed request code instance.pk instance.application db _ token' request'
              db' w refl p.own p.locked k'
        | inr (kept, k') ↦
            let (after, e, f) = >>=-eq-ok (renew env expires request token scope k db) _ k' in
            let same : db' ≡ after = cc in
            rw same (
              renew-IsWellFormed env expires token scope request k instance.application db after w
                (subst (LinkedTo db.access_tokens instance.application) bound p.linked) p.own e)
      ]

  save_with_refresh-IsWellFormed :
      (request : Request) (code : String) (db : Database) (o : Option RefreshToken)
      (token' : TokenDict) (request' : Request) (db' : Database)
      → IsWellFormed env.sha256 db
      → IsReady db request o
      → save_with_refresh env expires request token scope code db o ≡ ok (token', request', db')
      → IsWellFormed env.sha256 db'
  unfolding save_with_refresh
  save_with_refresh-IsWellFormed request code db none token' request' db' w p h =
      let (minted, e, k) = >>=-eq-ok (mint_pair env expires request token scope code none db) _ h in
      let same : db' ≡ minted = cc in
      rw same (mint-IsWellFormed env expires token scope request code none db minted w tt e)
  save_with_refresh-IsWellFormed request code db (some instance) token' request' db' w p h =
      save_presented-IsWellFormed request code db instance instance.access_token token' request' db'
        w p refl h

  pub store_tokens-IsWellFormed :
      (request : Request) (db : Database) (o : Option String) (token' : TokenDict)
      (request' : Request) (db' : Database)
      → IsWellFormed env.sha256 db
      → IsReady db request request.refresh_token_instance
      → store_tokens env expires request token scope db o ≡ ok (token', request', db')
      → IsWellFormed env.sha256 db'
  unfolding store_tokens new_access
  store_tokens-IsWellFormed request db none token' request' db' w p h =
      let new = new_access env expires request token scope none db in
      let (after, e, k) = >>=-eq-ok (insert_access new db) _ h in
      let same : db' ≡ after = cc in
      rw same (
        rw ((insert_access-ok new db after e).1)
          (with_access-IsWellFormed env.sha256 db w new refl tt))
  store_tokens-IsWellFormed request db (some code) token' request' db' w p h =
      save_with_refresh-IsWellFormed request code db request.refresh_token_instance token' request'
        db' w p h
