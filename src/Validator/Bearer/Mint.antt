-- ===== src/Validator/Bearer/Mint.antt =====
-- What minting a pair of tokens leaves in the tables.
use django_oauth_toolkit.Prelude.{
  ℕ, ◌+◌, String, ◌≡◌, refl, sym, ◌∙◌, ap, false, Option, none, some, [], ◌∷◌, ◌++◌, arith, any,
}
use django_oauth_toolkit.Settings.{Env, Error, Result, ok, err, >>=-eq-ok, ok-injective}
use django_oauth_toolkit.Models.Rows.{AccessToken, RefreshToken}
use django_oauth_toolkit.Models.Database.{
  Database, access_clash, refresh_clash, insert_access, insert_refresh, save_access,
}
use django_oauth_toolkit.Models.Invariant.Inserts.{with_saved}
use django_oauth_toolkit.Validator.Request.{Request, TokenDict, client_pk}
use django_oauth_toolkit.Validator.Create.{
  new_access, new_refresh, create_for, create_refresh_token, mint_pair, source_of, as_invalid_grant,
}

pub insert_access-ok :
    (a : AccessToken) (db db' : Database)
    → insert_access a db ≡ ok db'
    → (any (access_clash a) db.access_tokens ≡ false)
      × (db' ≡ record db { access_tokens = db.access_tokens ++ a ∷ []; next_pk = db.next_pk + 1 })
unfolding insert_access
insert_access-ok a db db' h = ground arith

pub save_access-ok :
    (a : AccessToken) (db db' : Database) → save_access a db ≡ ok db' → db' ≡ with_saved db a
unfolding save_access
save_access-ok a db db' h = ground arith

pub insert_refresh-ok :
    (r : RefreshToken) (db db' : Database)
    → insert_refresh r db ≡ ok db'
    → (any (refresh_clash r) db.refresh_tokens ≡ false)
      × (db' ≡ record db { refresh_tokens = db.refresh_tokens ++ r ∷ []; next_pk = db.next_pk + 1 })
unfolding insert_refresh
insert_refresh-ok r db db' h = ground arith

-- A refresh token that was created: its row, for the user and the client of the request.
pub record IsCreated (env : Env) (request : Request) (code : String) (access : ℕ)
    (previous : Option RefreshToken) (db : Database) (row : RefreshToken) (db' : Database)
    : Type 0 where
  pub user : ℕ
  pub user_of : request.user ≡ some user
  pub application : ℕ
  pub client_of : client_pk request ≡ some application
  pub is_new : row ≡ new_refresh env request code access previous user application db
  pub alone : any (refresh_clash row) db.refresh_tokens ≡ false
  pub tables :
      db' ≡ record db { refresh_tokens = db.refresh_tokens ++ row ∷ []; next_pk = db.next_pk + 1 }

as_invalid_grant-ok {ℓ} : {A : Type ℓ} (m : Result A) {a : A} → as_invalid_grant m ≡ ok a → m ≡ ok a
as_invalid_grant-ok (ok b) h = h
as_invalid_grant-ok (err Error.improperly_configured) h = cc
as_invalid_grant-ok (err e) h = cc

module _ (env : Env) (request : Request) (code : String) (access : ℕ)
    (previous : Option RefreshToken) (db : Database) (row : RefreshToken) (db' : Database) where
  create_for-IsCreated :
      (user application : Option ℕ)
      → request.user ≡ user
      → client_pk request ≡ application
      → create_for env request code access previous db user application ≡ ok (row, db')
      → IsCreated env request code access previous db row db'
  unfolding create_for
  create_for-IsCreated none application e f h = cc
  create_for-IsCreated (some user) none e f h = cc
  create_for-IsCreated (some user) (some application) e f h =
      let new = new_refresh env request code access previous user application db in
      let (db'', inserted, result) = >>=-eq-ok (as_invalid_grant (insert_refresh new db)) _ h in
      let (alone, tables) =
        insert_refresh-ok new db db'' (as_invalid_grant-ok (insert_refresh new db) inserted) in
      let is_new : row ≡ new = cc in
      let same : db' ≡ db'' = cc in
      record {
        user = user;
        user_of = e;
        application = application;
        client_of = f;
        is_new = is_new;
        alone = rw is_new alone;
        tables =
            same
            ∙ tables
            ∙ ap
                (λ r. record db {
                  refresh_tokens = db.refresh_tokens ++ r ∷ [];
                  next_pk = db.next_pk + 1;
                })
                (sym is_new);
      }

  pub create_refresh_token-IsCreated :
      create_refresh_token env request code access previous db ≡ ok (row, db')
      → IsCreated env request code access previous db row db'
  unfolding create_refresh_token
  create_refresh_token-IsCreated h =
      create_for-IsCreated request.user (client_pk request) refl refl h

-- A pair that was minted.
pub record IsMinted (env : Env) (access : AccessToken) (request : Request) (code : String)
    (previous : Option RefreshToken) (db db' : Database) : Type 0 where
  pub middle : Database
  pub stored :
      middle
      ≡ record db { access_tokens = db.access_tokens ++ access ∷ []; next_pk = db.next_pk + 1 }
  pub alone : any (access_clash access) db.access_tokens ≡ false
  pub row : RefreshToken
  pub created : IsCreated env request code access.pk previous middle row db'

pub mint_pair-IsMinted :
    (env : Env) (expires : ℕ) (request : Request) (token : TokenDict) (scope code : String)
    (previous : Option RefreshToken) (db db' : Database)
    → mint_pair env expires request token scope code previous db ≡ ok db'
    → IsMinted env
        (new_access env expires request token scope (source_of previous) db)
        request
        code
        previous
        db
        db'
unfolding mint_pair
mint_pair-IsMinted env expires request token scope code previous db db' h =
    let access = new_access env expires request token scope (source_of previous) db in
    let (middle, e, f) = >>=-eq-ok (insert_access access db) _ h in
    let (made, g, k) =
      >>=-eq-ok (create_refresh_token env request code access.pk previous middle) _ f in
    let (alone, stored) = insert_access-ok access db middle e in
    record {
      middle = middle;
      stored = stored;
      alone = alone;
      row = made.0;
      created =
          create_refresh_token-IsCreated env request code access.pk previous middle made.0 db'
            (g ∙ ap (λ d. ok (made.0, d)) (ok-injective k));
    }
