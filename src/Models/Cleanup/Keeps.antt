-- ===== src/Models/Cleanup/Keeps.antt =====
-- What each delete of `clear_expired` keeps: the invariant, and the refresh tokens that are live.
use mathlib.Core.Option
use django_oauth_toolkit.Prelude.{
  ℕ, suc, String, ◌<◌, ◌≡◌, refl, sym, ◌∙◌, ap, inl, inr, Bool, true, false, not, Option, none,
  some, List, [], ◌∷◌, map, arith, Bool-cases, ◌==◌, ==_iff, ==_refl, str_eq, points_to, length,
  filter, find?, find?-All, find?-test, find?-filter, find?-map, find?-any_of, any, All, All-total,
  IsKeyed, filter-IsKeyed,
}
use django_oauth_toolkit.Models.Rows.{Grant, AccessToken, RefreshToken, IdToken, PushedRequest}
use django_oauth_toolkit.Models.Database.{
  Database, find_refresh_checksum, find_pointed, bound_access, unsource, delete_access_where,
  delete_refresh_where, delete_id_where,
}
use django_oauth_toolkit.Models.Invariant.Defs.{IsWellFormed}
use django_oauth_toolkit.Models.Invariant.Deletes.{
  delete_access_where-IsWellFormed, delete_refresh_where-IsWellFormed,
}
use django_oauth_toolkit.Models.Cleanup.Batch.{length-filter-le}
use django_oauth_toolkit.Models.Cleanup.Unbound.{
  bound_to, issued_with, delete_access_unbound, delete_id_unused,
}

-- Well-formed token tables, with unique keys in the other tables, and fewer rows than the fuel.
pub record IsTidy (sha256 : String → String) (fuel : ℕ) (db : Database) : Type 0 where
  pub tokens : IsWellFormed sha256 db
  pub keyed_ids : IsKeyed (λ i. i.pk) db.id_tokens
  pub keyed_grants : IsKeyed (λ g. g.pk) db.grants
  pub keyed_requests : IsKeyed (λ p. p.pk) db.pushed_requests
  pub few_access : length db.access_tokens < fuel
  pub few_refresh : length db.refresh_tokens < fuel
  pub few_ids : length db.id_tokens < fuel
  pub few_grants : length db.grants < fuel
  pub few_requests : length db.pushed_requests < fuel

-- The checksum finds a row that is not revoked and whose access token is stored with the given expiry.
pub record IsHeld (c : String) (rt : RefreshToken) (expires : ℕ) (db : Database) : Type 0 where
  pub found : find_refresh_checksum db c ≡ some rt
  pub live : rt.revoked ≡ none
  pub access : AccessToken
  pub bound : bound_access db rt ≡ some access
  pub deadline : access.expires ≡ expires

-- The token tables of two databases are the same.
rebuilt-IsWellFormed :
    (sha256 : String → String) (db db' : Database)
    → db'.access_tokens ≡ db.access_tokens
    → db'.refresh_tokens ≡ db.refresh_tokens
    → db'.next_pk ≡ db.next_pk
    → IsWellFormed sha256 db
    → IsWellFormed sha256 db'
rebuilt-IsWellFormed sha256 db db' e f g w =
    rw (e, f, g)
      (record {
        is_sealed = w.is_sealed;
        detached = w.detached;
        linked = w.linked;
        sourced = w.sourced;
        keyed_access = w.keyed_access;
        keyed_refresh = w.keyed_refresh;
        fresh_access = w.fresh_access;
        fresh_refresh = w.fresh_refresh;
      })

length-map {ℓ} : {A : Type ℓ} (f : A → A) (xs : List A) → length (map f xs) ≡ length xs
length-map f [] = refl
length-map f (x ∷ xs) = ap suc (length-map f xs)

few {ℓ} :
    {A : Type ℓ} {fuel : ℕ} (p : A → Bool) (xs : List A)
    → length xs < fuel
    → length (filter (λ x. not (p x)) xs) < fuel
few p xs h = omega (arith, length-filter-le p xs)

module _ (sha256 : String → String) (fuel : ℕ) (db : Database) (t : IsTidy sha256 fuel db) where
  pub delete_refresh-IsTidy :
      (p : RefreshToken → Bool) → IsTidy sha256 fuel (delete_refresh_where p db)
  unfolding delete_refresh_where
  delete_refresh-IsTidy p = record {
    tokens = delete_refresh_where-IsWellFormed sha256 p db t.tokens;
    keyed_ids = t.keyed_ids;
    keyed_grants = t.keyed_grants;
    keyed_requests = t.keyed_requests;
    few_access = rw (length-map (unsource p db.refresh_tokens) db.access_tokens) t.few_access;
    few_refresh = few p db.refresh_tokens t.few_refresh;
    few_ids = t.few_ids;
    few_grants = t.few_grants;
    few_requests = t.few_requests;
  }

  pub delete_access-IsTidy :
      (p : AccessToken → Bool)
      → All (λ a. p a ≡ true → any (λ r. bound_to r a) db.refresh_tokens ≡ false) db.access_tokens
      → IsTidy sha256 fuel (delete_access_where p db)
  delete_access-IsTidy p h = rw (delete_access_unbound p db h) (record {
    tokens =
        rw (sym (delete_access_unbound p db h))
          (delete_access_where-IsWellFormed sha256 p db t.tokens);
    keyed_ids = t.keyed_ids;
    keyed_grants = t.keyed_grants;
    keyed_requests = t.keyed_requests;
    few_access = few p db.access_tokens t.few_access;
    few_refresh = t.few_refresh;
    few_ids = t.few_ids;
    few_grants = t.few_grants;
    few_requests = t.few_requests;
  })

  pub delete_id-IsTidy :
      (p : IdToken → Bool)
      → All (λ i. p i ≡ true → any (λ a. issued_with a i) db.access_tokens ≡ false) db.id_tokens
      → IsTidy sha256 fuel (delete_id_where p db)
  delete_id-IsTidy p h = rw (delete_id_unused p db h) (record {
    tokens = rebuilt-IsWellFormed sha256 db _ refl refl refl t.tokens;
    keyed_ids = filter-IsKeyed _ _ db.id_tokens t.keyed_ids;
    keyed_grants = t.keyed_grants;
    keyed_requests = t.keyed_requests;
    few_access = t.few_access;
    few_refresh = t.few_refresh;
    few_ids = few p db.id_tokens t.few_ids;
    few_grants = t.few_grants;
    few_requests = t.few_requests;
  })

  pub delete_grants-IsTidy :
      (p : Grant → Bool)
      → IsTidy sha256 fuel (record db { grants = filter (λ g. not (p g)) db.grants })
  delete_grants-IsTidy p = record {
    tokens = rebuilt-IsWellFormed sha256 db _ refl refl refl t.tokens;
    keyed_ids = t.keyed_ids;
    keyed_grants = filter-IsKeyed _ _ db.grants t.keyed_grants;
    keyed_requests = t.keyed_requests;
    few_access = t.few_access;
    few_refresh = t.few_refresh;
    few_ids = t.few_ids;
    few_grants = few p db.grants t.few_grants;
    few_requests = t.few_requests;
  }

  pub delete_requests-IsTidy :
      (p : PushedRequest → Bool)
      → IsTidy sha256 fuel
          (record db { pushed_requests = filter (λ r. not (p r)) db.pushed_requests })
  delete_requests-IsTidy p = record {
    tokens = rebuilt-IsWellFormed sha256 db _ refl refl refl t.tokens;
    keyed_ids = t.keyed_ids;
    keyed_grants = t.keyed_grants;
    keyed_requests = filter-IsKeyed _ _ db.pushed_requests t.keyed_requests;
    few_access = t.few_access;
    few_refresh = t.few_refresh;
    few_ids = t.few_ids;
    few_grants = t.few_grants;
    few_requests = few p db.pushed_requests t.few_requests;
  }

-- Live tokens survive.
module _ (c : String) (rt : RefreshToken) (expires : ℕ) (db : Database)
    (h : IsHeld c rt expires db) where
  unsource_bound :
      (p : RefreshToken → Bool) (o : Option ℕ)
      → find_pointed db.access_tokens o ≡ some h.access
      → find_pointed (map (unsource p db.refresh_tokens) db.access_tokens) o
        ≡ some (unsource p db.refresh_tokens h.access)
  unsource_bound p none e = cc
  unsource_bound p (some k) e =
      find?-map _ _ db.access_tokens (All-total _ (λ a. ground arith) db.access_tokens)
      ∙ ap (Option.map _) e

  unsource_expires :
      (p : RefreshToken → Bool) (a : AccessToken)
      → (unsource p db.refresh_tokens a).expires ≡ a.expires
  unsource_expires p a = ground arith

  pub delete_refresh-IsHeld :
      (p : RefreshToken → Bool) → p rt ≡ false → IsHeld c rt expires (delete_refresh_where p db)
  unfolding delete_refresh_where
  delete_refresh-IsHeld p kept = record {
    found = find?-filter _ _ db.refresh_tokens rt h.found (ap not kept);
    live = h.live;
    access = unsource p db.refresh_tokens h.access;
    bound = unsource_bound p rt.access_token h.bound;
    deadline = unsource_expires p h.access ∙ h.deadline;
  }

  kept_bound :
      (p : AccessToken → Bool)
      → All (λ a. p a ≡ true → any (λ r. bound_to r a) db.refresh_tokens ≡ false) db.access_tokens
      → (o : Option ℕ) → rt.access_token ≡ o
      → find_pointed db.access_tokens o ≡ some h.access
      → find_pointed (filter (λ a. not (p a)) db.access_tokens) o ≡ some h.access
  kept_bound p free none at e = cc
  kept_bound p free (some k) at e =
      let same : h.access.pk ≡ k =
        (==_iff h.access.pk k).0 (find?-test _ db.access_tokens h.access e) in
      let points : bound_to rt h.access ≡ true =
        ap (λ o. points_to o h.access.pk) at ∙ ap (λ j. k == j) same ∙ ==_refl k in
      let used = find?-any_of _ (λ r. bound_to r h.access) db.refresh_tokens rt h.found points in
      find?-filter _ _ db.access_tokens h.access e (elim (Bool-cases (p h.access)) [
        | inr kept ↦ ap not kept
        | inl gone ↦ cc (find?-All _ _ db.access_tokens h.access free e gone, used)
      ])

  pub delete_access-IsHeld :
      (p : AccessToken → Bool)
      → All (λ a. p a ≡ true → any (λ r. bound_to r a) db.refresh_tokens ≡ false) db.access_tokens
      → IsHeld c rt expires (delete_access_where p db)
  delete_access-IsHeld p free = rw (delete_access_unbound p db free) (record {
    found = h.found;
    live = h.live;
    access = h.access;
    bound = kept_bound p free rt.access_token refl h.bound;
    deadline = h.deadline;
  })

  -- So does a change of the other tables.
  pub rebuilt-IsHeld :
      (db' : Database)
      → db'.access_tokens ≡ db.access_tokens
      → db'.refresh_tokens ≡ db.refresh_tokens
      → IsHeld c rt expires db'
  rebuilt-IsHeld db' e f = record {
    found = ap (find? (λ r. str_eq r.token_checksum c)) f ∙ h.found;
    live = h.live;
    access = h.access;
    bound = ap (λ l. find_pointed l rt.access_token) e ∙ h.bound;
    deadline = h.deadline;
  }
