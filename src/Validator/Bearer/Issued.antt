-- ===== src/Validator/Bearer/Issued.antt =====
-- A minted pair can be used: the refresh token is found by its value, and bound to the access token.
use django_oauth_toolkit.Prelude.{
  ℕ, String, ◌≡◌, ◌≢◌, sym, ◌∙◌, ap, inl, false, Option, none, some, arith, eq_iff, str_eq, All-imp,
  find?-append_new, any-eq-false, or_false,
}
use text.Mathlib.TextPositions.{eq_refl}
use django_oauth_toolkit.Settings.{Env}
use django_oauth_toolkit.Models.Rows.{AccessToken, RefreshToken}
use django_oauth_toolkit.Models.Database.{
  Database, find_access, find_pointed, find_refresh_checksum, bound_access, set_token_value,
  checksum_pre_save,
}
use django_oauth_toolkit.Models.Invariant.Defs.{IsSealed, LinkedTo, IsSourced, IsWellFormed}
use django_oauth_toolkit.Models.Invariant.Inserts.{
  with_access-IsWellFormed, with_refresh-IsWellFormed, find_access-with_access,
}
use django_oauth_toolkit.Validator.Request.{Request, client_pk}
use django_oauth_toolkit.Validator.Create.{new_refresh, family_of}
use django_oauth_toolkit.Validator.Bearer.Mint.{IsCreated, IsMinted}

module _ (env : Env) (request : Request) (code : String) (access : ℕ)
    (previous : Option RefreshToken) (user application : ℕ) (db : Database) where
  checksum-new_refresh :
      code ≢ ""
      → (new_refresh env request code access previous user application db).token_checksum
        ≡ env.sha256 code
  unfolding new_refresh set_token_value checksum_pre_save
  checksum-new_refresh h = ground (arith, eq_iff code "")

  new_refresh-IsSealed :
      IsSealed env.sha256 (new_refresh env request code access previous user application db)
  unfolding new_refresh set_token_value checksum_pre_save
  new_refresh-IsSealed = ground (arith, eq_iff code "")

-- The row that the new value finds is the new one.
module _ {env : Env} {request : Request} {code : String} {access : ℕ}
    {previous : Option RefreshToken} {db : Database} {row : RefreshToken} {db' : Database}
    (c : IsCreated env request code access previous db row db') where
  pub created-found : code ≢ "" → find_refresh_checksum db' (env.sha256 code) ≡ some row
  created-found h =
      let checksum : row.token_checksum ≡ env.sha256 code =
        ap (λ r. r.token_checksum) c.is_new
        ∙ checksum-new_refresh env request code access previous c.user c.application db h in
      let other =
        All-imp _ (λ r. str_eq r.token_checksum (env.sha256 code) ≡ false)
          (λ r e. ap (str_eq r.token_checksum) (sym checksum) ∙ (or_false _ _ e).0)
          db.refresh_tokens (any-eq-false _ db.refresh_tokens c.alone) in
      ap (λ d. find_refresh_checksum d (env.sha256 code)) c.tables
      ∙ find?-append_new _ db.refresh_tokens row other
          (ap (λ t. str_eq t (env.sha256 code)) checksum ∙ eq_refl (env.sha256 code))

  pub created-IsSealed : IsSealed env.sha256 row
  created-IsSealed =
      rw c.is_new (new_refresh-IsSealed env request code access previous c.user c.application db)

  pub created-access : row.access_token ≡ some access
  unfolding new_refresh
  created-access = ap (λ r. r.access_token) c.is_new

  pub created-live : row.revoked ≡ none
  unfolding new_refresh
  created-live = ap (λ r. r.revoked) c.is_new

  pub created-application : client_pk request ≡ some row.application
  unfolding new_refresh
  created-application = c.client_of ∙ ap some (sym (ap (λ r. r.application) c.is_new))

  pub created-key : row.pk ≡ db.next_pk
  unfolding new_refresh
  created-key = ap (λ r. r.pk) c.is_new

  pub created-family : row.token_family ≡ family_of env previous
  unfolding new_refresh
  created-family = ap (λ r. r.token_family) c.is_new

-- The tables after a minted pair.
module _ {env : Env} {access : AccessToken} {request : Request} {code : String}
    {previous : Option RefreshToken} {db db' : Database}
    (m : IsMinted env access request code previous db db') (w : IsWellFormed env.sha256 db)
    (key : access.pk ≡ db.next_pk) (own : access.application ≡ client_pk request)
    (source : IsSourced db.refresh_tokens access) where
  minted_middle : IsWellFormed env.sha256 m.middle
  minted_middle = rw m.stored (with_access-IsWellFormed env.sha256 db w access key source)

  found_middle : find_access access.pk m.middle.access_tokens ≡ some access
  found_middle = rw m.stored (find_access-with_access env.sha256 db access w key)

  pub minted-bound : bound_access db' m.row ≡ some access
  minted-bound =
      ap (λ d. bound_access d m.row) m.created.tables
      ∙ ap (find_pointed m.middle.access_tokens) (created-access m.created)
      ∙ found_middle

  minted_linked :
      (o : Option ℕ) → o ≡ some access.pk → LinkedTo m.middle.access_tokens m.row.application o
  minted_linked none e = tt
  minted_linked (some k) e =
      let same : k ≡ access.pk = cc in
      (access, rw same found_middle, own ∙ created-application m.created)

  -- A minted pair keeps the tables well-formed.
  pub minted-IsWellFormed : IsWellFormed env.sha256 db'
  minted-IsWellFormed = rw m.created.tables (
      with_refresh-IsWellFormed env.sha256 m.middle minted_middle m.row (created-key m.created)
        (created-IsSealed m.created) (inl (created-live m.created))
        (minted_linked m.row.access_token (created-access m.created)))
