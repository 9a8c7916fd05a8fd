-- ===== src/Models/Cleanup/Stages.antt =====
-- What holds between the deletes of `clear_expired`, and each sweep.
use django_oauth_toolkit.Prelude.{
  ℕ, suc, String, ◌≡◌, refl, ap, inl, inr, Bool, true, false, not, ◌&&◌, Option, none, some, List,
  [], ◌∷◌, Bool-cases, Option-cases, ltb, filter, find?-All, any, All, All-imp, All-both, All-total,
  All-filter,
}
use django_oauth_toolkit.Models.Rows.{Grant, AccessToken, RefreshToken, IdToken, PushedRequest}
use django_oauth_toolkit.Models.Database.{
  Database, find_pointed, delete_refresh_where, delete_access_where, delete_id_where,
}
use django_oauth_toolkit.Models.Cleanup.{
  batch_delete, refresh_where, access_where, id_where, grants_where, par_where, revoked_query,
  orphan_query, expired_query, access_token_query, id_token_query, sweep_at,
}
use django_oauth_toolkit.Models.Cleanup.Batch.{batch_delete-ends}
use django_oauth_toolkit.Models.Cleanup.Unbound.{
  bound_to, issued_with, delete_access_unbound, delete_id_unused,
}
use django_oauth_toolkit.Models.Cleanup.Keeps.{
  IsTidy, IsHeld, delete_refresh-IsTidy, delete_access-IsTidy, delete_id-IsTidy,
  delete_grants-IsTidy, delete_requests-IsTidy, delete_refresh-IsHeld, delete_access-IsHeld,
  rebuilt-IsHeld,
}
use django_oauth_toolkit.Validator.Refresh.{outlived}

matching-none :
    {A : Type 0} (p : A → Bool) (xs : List A) → filter p xs ≡ [] → All (λ x. p x ≡ false) xs
matching-none p [] h = tt
matching-none p (x ∷ xs) h = elim (Bool-cases (p x)) [
  | inl hit ↦ cc (hit, h)
  | inr miss ↦ (miss, matching-none p xs (rw miss at h))
]

not-and : (a b : Bool) → (not a && b) ≡ true → a ≡ false
not-and true b h = cc
not-and false b h = refl

-- A sweep without a cutoff is skipped.
abbrev pub due : Option ℕ → (ℕ → Database → RefreshToken → Bool) → Database → RefreshToken → Bool
due none query db r = false
due (some delta) query db r = query delta db r

module _ (sha256 : String → String) (now size fuel : ℕ) (expire : Option ℕ)
    (before : Database) where
  -- Between two deletes: the tables are tidy, every live token in its lifetime is held as before, and
  -- the refresh tokens have a property.
  pub record IsSweeping (clean : RefreshToken → Type 0) (db : Database) : Type 0 where
    pub tidy : IsTidy sha256 fuel db
    pub kept :
        (c : String) (rt : RefreshToken) (expires : ℕ)
        → IsHeld c rt expires before
        → outlived expire expires now ≡ false
        → IsHeld c rt expires db
    pub refresh_clean : All clean db.refresh_tokens

  module _ (clean : RefreshToken → Type 0) (db : Database) (s : IsSweeping clean db) where
    refresh-IsSweeping :
        (matches : Database → RefreshToken → Bool)
        → ((c : String) (rt : RefreshToken) (expires : ℕ)
            → IsHeld c rt expires db
            → outlived expire expires now ≡ false
            → matches db rt ≡ false)
        → (p : RefreshToken → Bool) → All (λ r. p r ≡ true → matches db r ≡ true) db.refresh_tokens
        → IsSweeping clean (delete_refresh_where p db)
    unfolding delete_refresh_where
    refresh-IsSweeping matches spares p sub = record {
      tidy = delete_refresh-IsTidy sha256 fuel db s.tidy p;
      kept = λ c rt expires h t.
          let held = s.kept c rt expires h t in
          delete_refresh-IsHeld c rt expires db held p (elim (Bool-cases (p rt)) [
            | inr miss ↦ miss
            | inl hit ↦
                cc (
                  find?-All _ _ db.refresh_tokens rt sub held.found hit,
                  spares c rt expires held t,
                )
          ]);
      refresh_clean = All-filter _ _ db.refresh_tokens s.refresh_clean;
    }

    access-IsSweeping :
        (p : AccessToken → Bool)
        → All (λ a. p a ≡ true → access_token_query now db a ≡ true) db.access_tokens
        → IsSweeping clean (delete_access_where p db)
    access-IsSweeping p sub =
        let free =
          All-imp _ (λ a. p a ≡ true → any (λ r. bound_to r a) db.refresh_tokens ≡ false)
            (λ a h e. not-and _ _ (h e)) db.access_tokens sub in
        record {
          tidy = delete_access-IsTidy sha256 fuel db s.tidy p free;
          kept = λ c rt expires h t.
              delete_access-IsHeld c rt expires db (s.kept c rt expires h t) p free;
          refresh_clean = rw (delete_access_unbound p db free) s.refresh_clean;
        }

    id-IsSweeping :
        (p : IdToken → Bool)
        → All (λ i. p i ≡ true → id_token_query now db i ≡ true) db.id_tokens
        → IsSweeping clean (delete_id_where p db)
    id-IsSweeping p sub =
        let free =
          All-imp _ (λ i. p i ≡ true → any (λ a. issued_with a i) db.access_tokens ≡ false)
            (λ i h e. not-and _ _ (h e)) db.id_tokens sub in
        record {
          tidy = delete_id-IsTidy sha256 fuel db s.tidy p free;
          kept = λ c rt expires h t.
              rw (delete_id_unused p db free)
                (rebuilt-IsHeld c rt expires db (s.kept c rt expires h t) _ refl refl);
          refresh_clean = rw (delete_id_unused p db free) s.refresh_clean;
        }

    grants-IsSweeping :
        (p : Grant → Bool)
        → IsSweeping clean (record db { grants = filter (λ g. not (p g)) db.grants })
    grants-IsSweeping p = record {
      tidy = delete_grants-IsTidy sha256 fuel db s.tidy p;
      kept =
          λ c rt expires h t. rebuilt-IsHeld c rt expires db (s.kept c rt expires h t) _ refl refl;
      refresh_clean = s.refresh_clean;
    }

    requests-IsSweeping :
        (p : PushedRequest → Bool)
        → IsSweeping clean
            (record db { pushed_requests = filter (λ r. not (p r)) db.pushed_requests })
    requests-IsSweeping p = record {
      tidy = delete_requests-IsTidy sha256 fuel db s.tidy p;
      kept =
          λ c rt expires h t. rebuilt-IsHeld c rt expires db (s.kept c rt expires h t) _ refl refl;
      refresh_clean = s.refresh_clean;
    }

  -- The sweeps, each with a batch size that is not zero.
  pub refresh_stage :
      (clean : RefreshToken → Type 0) (matches : Database → RefreshToken → Bool)
      → ((db : Database) (c : String) (rt : RefreshToken) (expires : ℕ)
          → IsHeld c rt expires db
          → outlived expire expires now ≡ false
          → matches db rt ≡ false)
      → (db : Database) → IsSweeping clean db
      → (db' : Database) × (batch_delete (refresh_where matches) (suc size) fuel db ≡ some db')
        × IsSweeping clean db'
        × All (λ r. matches db' r ≡ false) db'.refresh_tokens
  unfolding delete_refresh_where
  refresh_stage clean matches spares db s =
      let (db', ends, after, none_left) =
        batch_delete-ends (refresh_where matches) (IsSweeping clean)
          (λ d t. t.tidy.tokens.keyed_refresh) (λ p d. refl)
          (λ p d t sub. refresh-IsSweeping clean d t matches (spares d) p sub) size fuel db
          s.tidy.few_refresh s in
      (db', ends, after, matching-none _ _ none_left)

  pub cleaner :
      (C D : RefreshToken → Type 0) (db : Database)
      → IsSweeping C db
      → All D db.refresh_tokens
      → IsSweeping (λ r. C r × D r) db
  cleaner C D db s h = record {
    tidy = s.tidy;
    kept = s.kept;
    refresh_clean = All-both _ _ db.refresh_tokens s.refresh_clean h;
  }

  pub cutoff_stage :
      (clean : RefreshToken → Type 0) (o : Option ℕ) (query : ℕ → Database → RefreshToken → Bool)
      → ((db : Database) (c : String) (rt : RefreshToken) (expires : ℕ)
          → IsHeld c rt expires db
          → outlived expire expires now ≡ false
          → due o query db rt ≡ false)
      → (db : Database) → IsSweeping clean db
      → (db' : Database) × (sweep_at o query (suc size) fuel db ≡ some db')
        × IsSweeping clean db'
        × All (λ r. due o query db' r ≡ false) db'.refresh_tokens
  cutoff_stage clean none query spares db s =
      (db, refl, s, All-total _ (λ r. refl) db.refresh_tokens)
  cutoff_stage clean (some delta) query spares db s = refresh_stage clean (query delta) spares db s

  pub orphan_spares :
      (db : Database) (c : String) (rt : RefreshToken) (expires : ℕ)
      → IsHeld c rt expires db
      → orphan_query rt ≡ false
  orphan_spares db c rt expires h = elim (Option-cases rt.access_token) [
    | inl e ↦ cc (h.bound, ap (find_pointed db.access_tokens) e)
    | inr (k, e) ↦ rw (h.live, e) refl
  ]

  pub revoked_spares :
      (o : Option ℕ) (db : Database) (c : String) (rt : RefreshToken) (expires : ℕ)
      → IsHeld c rt expires db
      → due o (λ delta db. revoked_query now delta) db rt ≡ false
  revoked_spares none db c rt expires h = refl
  revoked_spares (some delta) db c rt expires h = rw h.live refl

  pub expired_spares :
      (o : Option ℕ) (db : Database) (c : String) (rt : RefreshToken) (expires : ℕ)
      → IsHeld c rt expires db
      → outlived o expires now ≡ false
      → due o (expired_query now) db rt ≡ false
  expired_spares none db c rt expires h t = refl
  expired_spares (some delta) db c rt expires h t = rw (h.live, h.bound, h.deadline) t

  pub access_stage :
      (clean : RefreshToken → Type 0) (db : Database)
      → IsSweeping clean db
      → (db' : Database) × (batch_delete (access_where now) (suc size) fuel db ≡ some db')
        × IsSweeping clean db'
  unfolding delete_access_where
  access_stage clean db s =
      let (db', ends, after, none_left) =
        batch_delete-ends (access_where now) (IsSweeping clean) (λ d t. t.tidy.tokens.keyed_access)
          (λ p d. refl) (λ p d t sub. access-IsSweeping clean d t p sub) size fuel db
          s.tidy.few_access s in
      (db', ends, after)

  pub id_stage :
      (clean : RefreshToken → Type 0) (db : Database)
      → IsSweeping clean db
      → (db' : Database) × (batch_delete (id_where now) (suc size) fuel db ≡ some db')
        × IsSweeping clean db'
  unfolding delete_id_where delete_access_where
  id_stage clean db s =
      let (db', ends, after, none_left) =
        batch_delete-ends (id_where now) (IsSweeping clean) (λ d t. t.tidy.keyed_ids) (λ p d. refl)
          (λ p d t sub. id-IsSweeping clean d t p sub) size fuel db s.tidy.few_ids s in
      (db', ends, after)

  abbrev pub NoGrantOut : Database → Type 0
  NoGrantOut db = All (λ g. ltb g.expires now ≡ false) db.grants

  pub grants_stage :
      (clean : RefreshToken → Type 0) (db : Database)
      → IsSweeping clean db
      → (db' : Database) × (batch_delete (grants_where now) (suc size) fuel db ≡ some db')
        × IsSweeping clean db'
        × NoGrantOut db'
  grants_stage clean db s =
      let (db', ends, after, none_left) =
        batch_delete-ends (grants_where now) (IsSweeping clean) (λ d t. t.tidy.keyed_grants)
          (λ p d. refl) (λ p d t sub. grants-IsSweeping clean d t p) size fuel db s.tidy.few_grants
          s in
      (db', ends, after, matching-none _ _ none_left)

  pub requests_stage :
      (clean : RefreshToken → Type 0) (db : Database)
      → IsSweeping clean db
      → NoGrantOut db
      → (db' : Database) × (batch_delete (par_where now) (suc size) fuel db ≡ some db')
        × IsSweeping clean db'
        × NoGrantOut db'
        × All (λ p. ltb p.expires now ≡ false) db'.pushed_requests
  requests_stage clean db s g =
      let (db', ends, (after, grants), none_left) =
        batch_delete-ends (par_where now) (λ d. IsSweeping clean d × NoGrantOut d)
          (λ d t. t.0.tidy.keyed_requests) (λ p d. refl)
          (λ p d t sub. (requests-IsSweeping clean d t.0 p, t.1)) size fuel db s.tidy.few_requests
          (s, g) in
      (db', ends, after, grants, matching-none _ _ none_left)
