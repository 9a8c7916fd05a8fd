-- ===== src/Validator/Bearer/Stored.antt =====
-- Minting, writing anew and answering again keep the token tables well-formed.
use django_oauth_toolkit.Prelude.{
  ℕ, String, ◌≡◌, refl, sym, ◌∙◌, ap, inl, inr, Option, none, some, Option-cases, ==_iff, points_to,
  find?, find?-test,
}
use django_oauth_toolkit.Settings.{Env, ok, >>=-eq-ok}
use django_oauth_toolkit.Models.Rows.{AccessToken, RefreshToken}
use django_oauth_toolkit.Models.Database.{Database, find_access, find_refresh, save_access}
use django_oauth_toolkit.Models.Invariant.Defs.{IsLinked, LinkedTo, SourcedTo, IsWellFormed}
use django_oauth_toolkit.Models.Invariant.Inserts.{
  with_refresh-IsWellFormed, with_saved-IsWellFormed, with_saved,
}
use django_oauth_toolkit.Validator.Request.{Request, TokenDict, client_pk}
use django_oauth_toolkit.Validator.Create.{new_access, create_refresh_token, mint_pair, source_of}
use django_oauth_toolkit.Validator.Bearer.{renewed, renew, answer_again}
use django_oauth_toolkit.Validator.Bearer.Mint.{
  IsCreated, save_access-ok, create_refresh_token-IsCreated, mint_pair-IsMinted,
}
use django_oauth_toolkit.Validator.Bearer.Issued.{
  minted-IsWellFormed, created-live, created-access, created-application, created-IsSealed,
  created-key,
}

-- What `validate_refresh_token` leaves on the request: a refresh token of the request's client, with
-- its access token stored, whose row is of the same client.
pub record IsPresented (db : Database) (request : Request) (instance : RefreshToken) : Type 0 where
  pub linked : IsLinked db.access_tokens instance
  pub own : client_pk request ≡ some instance.application
  pub locked :
      (r : RefreshToken)
      → find_refresh instance.pk db.refresh_tokens ≡ some r
      → r.application ≡ instance.application

abbrev pub IsReady : Database → Request → Option RefreshToken → Type 0
IsReady db request none = Unit
IsReady db request (some instance) = IsPresented db request instance

module _ (env : Env) (expires : ℕ) (token : TokenDict) (scope : String) where
  pub mint-IsWellFormed :
      (request : Request) (code : String) (previous : Option RefreshToken) (db db' : Database)
      → IsWellFormed env.sha256 db
      → SourcedTo db.refresh_tokens (client_pk request) (source_of previous)
      → mint_pair env expires request token scope code previous db ≡ ok db'
      → IsWellFormed env.sha256 db'
  unfolding new_access
  mint-IsWellFormed request code previous db db' w s h =
      minted-IsWellFormed
        (mint_pair-IsMinted env expires request token scope code previous db db' h) w refl refl s

  pub renew-IsWellFormed :
      (request : Request) (k application : ℕ) (db db' : Database)
      → IsWellFormed env.sha256 db
      → LinkedTo db.access_tokens application (some k)
      → client_pk request ≡ some application
      → renew env expires request token scope k db ≡ ok db'
      → IsWellFormed env.sha256 db'
  unfolding renew renewed save_access
  renew-IsWellFormed request k application db db' w (a, found, same) own h =
      let new = renewed env expires request token scope a in
      let saved = rw (found, renew) at h in
      let row : find_access a.pk db.access_tokens ≡ some a =
        ap (λ j. find_access j db.access_tokens)
          ((==_iff a.pk k).0 (find?-test _ db.access_tokens a found))
        ∙ found in
      let tables : db' ≡ with_saved db new = save_access-ok new db db' saved in
      rw tables (with_saved-IsWellFormed env.sha256 db new a w row (same ∙ sym own) refl)

  -- A refresh token that is made anew for a stored access token.
  created-IsWellFormed :
      (request : Request) (code : String) (k : ℕ) (access : AccessToken)
      (previous : Option RefreshToken) (db : Database) (row : RefreshToken) (db' : Database)
      → IsWellFormed env.sha256 db
      → find_access k db.access_tokens ≡ some access
      → access.application ≡ client_pk request
      → IsCreated env request code k previous db row db'
      → IsWellFormed env.sha256 db'
  created-IsWellFormed request code k access previous db row db' w stored own c = rw c.tables (
      with_refresh-IsWellFormed env.sha256 db w row (created-key c) (created-IsSealed c)
        (inl (created-live c)) (linked row.access_token (created-access c)))
    where
      linked : (o : Option ℕ) → o ≡ some k → LinkedTo db.access_tokens row.application o
      linked none e = tt
      linked (some j) e =
          let same : j ≡ k = cc in (access, rw same stored, own ∙ created-application c)

  pub answer_again-IsWellFormed :
      (request : Request) (code : String) (access : AccessToken) (previous : Option RefreshToken)
      (db : Database) (token' : TokenDict) (db' : Database)
      → IsWellFormed env.sha256 db
      → find_access access.pk db.access_tokens ≡ some access
      → access.application ≡ client_pk request
      → answer_again env request token code access previous db ≡ ok (token', db')
      → IsWellFormed env.sha256 db'
  unfolding answer_again
  answer_again-IsWellFormed request code access previous db token' db' w stored own h =
      elim (Option-cases (find? (λ r. points_to r.access_token access.pk) db.refresh_tokens)) [
        | inl alone ↦
            let made = rw (alone, answer_again) at h in
            let ((row, middle), created, k) =
              >>=-eq-ok (create_refresh_token env request code access.pk previous db) _ made in
            let same : db' ≡ middle = cc in
            rw same (
              created-IsWellFormed request code access.pk access previous db row middle w stored own
                (create_refresh_token-IsCreated env request code access.pk previous db row middle
                  created))
        | inr (r, bound) ↦
            let made = rw (bound, answer_again) at h in let same : db' ≡ db = cc in rw same w
      ]
