-- ===== src/Validator/Refresh/Repudiation.antt =====
-- A refresh token that is revoked before it was used is never accepted again.
use mathlib.Core.Option
use django_oauth_toolkit.Prelude.{
  ℕ, String, ◌≡◌, ◌≢◌, refl, sym, ◌∙◌, ap, inl, inr, true, not, ◌&&◌, Option, none, some, All,
  arith, is_some, Option-cases, ◌==◌, ==_refl, eq_iff, str_eq, if◌then◌else◌, All-imp, All-total,
  find?, find?-map, find?-All, find?-eq-none, find?-none-filter, update_where,
}
use django_oauth_toolkit.Settings.{Env, ok}
use django_oauth_toolkit.Models.Rows.{Application, AccessToken, RefreshToken}
use django_oauth_toolkit.Models.Database.{
  Database, successor, find_refresh_checksum, bound_access, detach, delete_access_where,
}
use django_oauth_toolkit.Models.Revoke.{revoke, repudiate, drop_bound, revoke_access}
use django_oauth_toolkit.Models.Invariant.Defs.{IsSealed, IsWellFormed}
use django_oauth_toolkit.Models.Invariant.Revokes.{drop_bound-IsWellFormed}
use django_oauth_toolkit.Validator.Request.{Request}
use django_oauth_toolkit.Validator.Refresh.{validate_refresh_token}
use django_oauth_toolkit.Validator.Refresh.Verdict.{validate_refresh_token_accepts_iff}

-- Deleting an access token moves no checksum, and brings no successor.
module _ (db : Database) where
  find-drop_bound :
      (o : Option AccessToken) (c : String) (rt : RefreshToken)
      → find_refresh_checksum db c ≡ some rt
      → (r : RefreshToken) × (find_refresh_checksum (drop_bound o db) c ≡ some r) × (r.pk ≡ rt.pk)
  unfolding revoke_access delete_access_where
  find-drop_bound none c rt found = (rt, found, refl)
  find-drop_bound (some a) c rt found = (
    detach (λ b. b.pk == a.pk) db.access_tokens rt,
    find?-map _ _ db.refresh_tokens (All-total _ (λ r. ground arith) db.refresh_tokens)
        ∙ ap (Option.map _) found,
    ground arith,
  )

  successor-drop_bound :
      (o : Option AccessToken) (k : ℕ)
      → successor db k ≡ none
      → successor (drop_bound o db) k ≡ none
  unfolding revoke_access delete_access_where
  successor-drop_bound none k e = e
  successor-drop_bound (some a) k e = find?-none-filter _ _ db.access_tokens e

-- The row that the checksum finds after `revoke`: revoked, with the same key and no successor.
record IsRepudiated (db : Database) (c : String) (k : ℕ) : Type 0 where
  row : RefreshToken
  found : find_refresh_checksum db c ≡ some row
  key : row.pk ≡ k
  revoked : is_some row.revoked ≡ true
  unused : successor db k ≡ none

module _ (env : Env) where
  checksum-repudiate :
      (c : String) (pk : ℕ) (r : RefreshToken)
      → IsSealed env.sha256 r
      → str_eq (if r.pk == pk then repudiate env r else r).token_checksum c
        ≡ str_eq r.token_checksum c
  unfolding repudiate
  checksum-repudiate c pk r h = ground (arith, eq_iff r.token "")

  save-IsRepudiated :
      (db : Database) (c : String) (r : RefreshToken) (k : ℕ)
      → All (IsSealed env.sha256) db.refresh_tokens
      → find_refresh_checksum db c ≡ some r
      → r.pk ≡ k
      → successor db k ≡ none
      → IsRepudiated
          (record db {
            refresh_tokens = update_where (λ s. s.pk == k) (repudiate env) db.refresh_tokens;
          })
          c
          k
  unfolding repudiate
  save-IsRepudiated db c r k sealed found key unused = record {
    row = if r.pk == k then repudiate env r else r;
    found =
        find?-map _ _ db.refresh_tokens
          (All-imp _ _ (checksum-repudiate c k) db.refresh_tokens sealed)
        ∙ ap (Option.map _) found;
    key = ground arith;
    revoked = ground arith;
    unused = unused;
  }

  -- The locked row exists, since the row that the checksum finds is not revoked.
  revoke-IsRepudiated :
      (db : Database) (c : String) (rt : RefreshToken)
      → IsWellFormed env.sha256 db
      → find_refresh_checksum db c ≡ some rt
      → rt.revoked ≡ none
      → successor db rt.pk ≡ none
      → IsRepudiated (revoke env rt.pk db) c rt.pk
  unfolding revoke
  revoke-IsRepudiated db c rt w found live unused =
      elim (Option-cases
        (find? (λ r. r.pk == rt.pk && not (is_some r.revoked)) db.refresh_tokens)) [
          | inl gone ↦
              let missed =
                find?-All _ _ db.refresh_tokens rt (find?-eq-none _ db.refresh_tokens gone) found in
              cc (missed, ap (λ o. (rt.pk == rt.pk) && not (is_some o)) live, ==_refl rt.pk)
          | inr (t, locked) ↦
              let o = bound_access db t in
              let (r, found', key) = find-drop_bound db o c rt found in
              rw (locked, revoke)
                (save-IsRepudiated (drop_bound o db) c r rt.pk
                  (drop_bound-IsWellFormed env o db w).is_sealed found' key
                  (successor-drop_bound db o rt.pk unused))
        ]

-- A refresh token that has not been used, once it is revoked, is never accepted again: not by any
-- client, with any request, settings or time, whatever the grace period is.
pub revoke_rejects :
    (env env' : Env) (token : String) (db : Database) (rt : RefreshToken) (client : Application)
    (request request' : Request) (db' : Database)
    → IsWellFormed env.sha256 db
    → env'.sha256 ≡ env.sha256
    → find_refresh_checksum db (env.sha256 token) ≡ some rt
    → rt.revoked ≡ none
    → successor db rt.pk ≡ none
    → validate_refresh_token env' token client request (revoke env rt.pk db)
      ≢ ok (true, request', db')
revoke_rejects env env' token db rt client request request' db' w same found live unused h =
    let gone = revoke-IsRepudiated env db (env.sha256 token) rt w found live unused in
    let a =
      (validate_refresh_token_accepts_iff env' token client request (revoke env rt.pk db) request'
          db').0
        h in
    let after = revoke env rt.pk db in
    let both : some a.row ≡ some gone.row =
      sym a.found ∙ ap (λ f. find_refresh_checksum after (f token)) same ∙ gone.found in
    let row : a.row ≡ gone.row = cc in
    elim a.good [
      | inl l ↦ cc (ap (λ r. is_some r.revoked) row, ap is_some l.never_revoked, gone.revoked)
      | inr g ↦ cc (
        g.superseded,
        gone.unused,
        ap (λ r. successor after r.pk) row,
        ap (successor after) gone.key,
      )
    ]
