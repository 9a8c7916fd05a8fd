-- ===== src/Models/Invariant/Revokes.antt =====
-- Revocation keeps the invariant.
use django_oauth_toolkit.Prelude.{
  map-IsKeyed, ℕ, inl, inr, not, ◌&&◌, Option, none, some, ◌==◌, points_to, is_some, arith, find?,
  update_where, All-map, All-imp, Bool-cases, Option-cases, eq_iff,
}
use django_oauth_toolkit.Settings.{Env}
use django_oauth_toolkit.Models.Rows.{AccessToken}
use django_oauth_toolkit.Models.Database.{Database, bound_access}
use django_oauth_toolkit.Models.Revoke.{
  revoke_access, repudiate, drop_bound, revoke, revoke_access_token,
}
use django_oauth_toolkit.Models.Invariant.Defs.{SourcedTo-map, IsWellFormed}
use django_oauth_toolkit.Models.Invariant.Deletes.{delete_access_where-IsWellFormed}

module _ (env : Env) where
  -- Saving the repudiated row keeps the tables well-formed.
  update-IsWellFormed :
      (pk : ℕ) (db : Database)
      → IsWellFormed env.sha256 db
      → IsWellFormed env.sha256 (record db {
        refresh_tokens = update_where (λ r. r.pk == pk) (repudiate env) db.refresh_tokens;
      })
  unfolding repudiate
  update-IsWellFormed pk db w = record {
    is_sealed =
        All-map _ _ _ (λ r h. ground (arith, eq_iff r.token "")) db.refresh_tokens w.is_sealed;
    detached = All-map _ _ _ (λ r h. ground arith) db.refresh_tokens w.detached;
    linked =
        All-map _ _ _
          (λ r h. elim (Bool-cases (r.pk == pk)) [ inl same ↦ rw same tt | inr other ↦ rw other h ])
          db.refresh_tokens w.linked;
    sourced =
        All-imp _ _
          (λ a.
            SourcedTo-map _ (λ r. ground arith) (λ r. ground arith) (λ r h. ground arith)
              db.refresh_tokens a.application a.source_refresh_token)
          db.access_tokens w.sourced;
    keyed_access = w.keyed_access;
    keyed_refresh = map-IsKeyed _ _ (λ r. ground arith) db.refresh_tokens w.keyed_refresh;
    fresh_access = w.fresh_access;
    fresh_refresh = All-map _ _ _ (λ r h. ground arith) db.refresh_tokens w.fresh_refresh;
  }

  pub drop_bound-IsWellFormed :
      (o : Option AccessToken) (db : Database)
      → IsWellFormed env.sha256 db
      → IsWellFormed env.sha256 (drop_bound o db)
  unfolding revoke_access
  drop_bound-IsWellFormed none db w = w
  drop_bound-IsWellFormed (some a) db w = delete_access_where-IsWellFormed env.sha256 _ db w

  -- Revoking a refresh token keeps the tables well-formed.
  pub revoke-IsWellFormed :
      (pk : ℕ) (db : Database)
      → IsWellFormed env.sha256 db
      → IsWellFormed env.sha256 (revoke env pk db)
  unfolding revoke
  revoke-IsWellFormed pk db w =
      elim (Option-cases (find? (λ r. r.pk == pk && not (is_some r.revoked)) db.refresh_tokens)) [
        | inl gone ↦ rw (gone, revoke) w
        | inr (t, found) ↦
            rw (found, revoke)
              (update-IsWellFormed pk (drop_bound (bound_access db t) db)
                (drop_bound-IsWellFormed (bound_access db t) db w))
      ]

  -- So does revoking an access token.
  pub revoke_access_token-IsWellFormed :
      (a : AccessToken) (db : Database)
      → IsWellFormed env.sha256 db
      → IsWellFormed env.sha256 (revoke_access_token env a db)
  unfolding revoke_access_token
  revoke_access_token-IsWellFormed a db w =
      elim (Option-cases (find? (λ r. points_to r.access_token a.pk) db.refresh_tokens)) [
        | inl alone ↦ rw (alone, revoke_access_token) (drop_bound-IsWellFormed (some a) db w)
        | inr (r, bound) ↦ rw (bound, revoke_access_token) (revoke-IsWellFormed r.pk db w)
      ]
