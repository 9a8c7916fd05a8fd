-- ===== src/Models/Cleanup/Total.antt =====
-- `clear_expired` as a whole: it ends, and what it leaves.
use django_oauth_toolkit.Prelude.{
  ℕ, suc, String, ◌≡◌, refl, ◌∙◌, ap, false, Option, none, some, ltb, All, All-imp, All-total,
}
use django_oauth_toolkit.Settings.{Env, ok}
use django_oauth_toolkit.Models.Rows.{RefreshToken}
use django_oauth_toolkit.Models.Database.{Database}
use django_oauth_toolkit.Models.Cleanup.{
  batch_delete, refresh_where, access_where, id_where, grants_where, par_where, revoked_query,
  orphan_query, expired_query, sweep_at, ◌>=>◌, sweep, cutoffs, clear_expired,
}
use django_oauth_toolkit.Models.Cleanup.Keeps.{IsTidy, IsHeld}
use django_oauth_toolkit.Validator.Refresh.{outlived}
use django_oauth_toolkit.Models.Cleanup.Stages.{
  IsSweeping, due, refresh_stage, cleaner, cutoff_stage, orphan_spares, revoked_spares,
  expired_spares, access_stage, id_stage, grants_stage, requests_stage,
}

-- What the sweep leaves.
pub record IsSwept (sha256 : String → String) (now fuel : ℕ) (limits : Option ℕ × Option ℕ)
    (before db : Database) : Type 0 where
  pub tidy : IsTidy sha256 fuel db
  pub kept :
      (c : String) (rt : RefreshToken) (expires : ℕ)
      → IsHeld c rt expires before
      → outlived limits.1 expires now ≡ false
      → IsHeld c rt expires db
  pub no_spent :
      All (λ r. due limits.0 (λ delta db. revoked_query now delta) db r ≡ false) db.refresh_tokens
  pub no_orphan : All (λ r. orphan_query r ≡ false) db.refresh_tokens
  pub no_grant : All (λ g. ltb g.expires now ≡ false) db.grants
  pub no_request : All (λ p. ltb p.expires now ≡ false) db.pushed_requests

-- Whether a revoked token is due does not depend on the tables.
due_same :
    (o : Option ℕ) (now : ℕ) (db db' : Database) (r : RefreshToken)
    → due o (λ delta db. revoked_query now delta) db r ≡ false
    → due o (λ delta db. revoked_query now delta) db' r ≡ false
due_same none now db db' r h = refl
due_same (some delta) now db db' r h = h

chain :
    (first next : Database → Option Database) (db middle last : Database)
    → first db ≡ some middle
    → next middle ≡ some last
    → (first >=> next) db ≡ some last
chain first next db middle last e f = ap (λ o. elim o [ none ↦ none | some db' ↦ next db' ]) e ∙ f

sweep-ends :
    (sha256 : String → String) (now size fuel : ℕ) (limits : Option ℕ × Option ℕ) (db : Database)
    → IsTidy sha256 fuel db
    → (db' : Database) × (sweep now (suc size) fuel limits db ≡ some db')
      × IsSwept sha256 now fuel limits db db'
unfolding sweep
sweep-ends sha256 now size fuel (revoked, expire) db tidy =
    let spent = λ (d : Database) (r : RefreshToken).
      due revoked (λ delta db. revoked_query now delta) d r ≡ false in
    let s0 : IsSweeping sha256 now size fuel expire db (λ r. Unit) db = record {
      tidy = tidy;
      kept = λ c rt expires h t. h;
      refresh_clean = All-total _ (λ r. tt) db.refresh_tokens;
    } in
    let (d1, e1, s1, c1) =
      cutoff_stage sha256 now size fuel expire db (λ r. Unit) revoked _
        (λ d c rt expires h t.
          revoked_spares sha256 now size fuel expire db revoked d c rt expires h)
        db s0 in
    let s1' =
      cleaner sha256 now size fuel expire db (λ r. Unit) (spent db) d1 s1
        (All-imp _ _ (λ r. due_same revoked now d1 db r) d1.refresh_tokens c1) in
    let (d2, e2, s2, c2) =
      refresh_stage sha256 now size fuel expire db (λ r. Unit × spent db r) (λ d. orphan_query)
        (λ d c rt expires h t. orphan_spares sha256 now size fuel expire db d c rt expires h) d1
        s1' in
    let s2' =
      cleaner sha256 now size fuel expire db (λ r. Unit × spent db r) (λ r. orphan_query r ≡ false)
        d2 s2 c2 in
    let clean = λ (r : RefreshToken). (Unit × spent db r) × (orphan_query r ≡ false) in
    let (d3, e3, s3, c3) =
      cutoff_stage sha256 now size fuel expire db clean expire (expired_query now)
        (λ d c rt expires h t.
          expired_spares sha256 now size fuel expire db expire d c rt expires h t)
        d2 s2' in
    let (d4, e4, s4) = access_stage sha256 now size fuel expire db clean d3 s3 in
    let (d5, e5, s5) = id_stage sha256 now size fuel expire db clean d4 s4 in
    let (d6, e6, s6, g6) = grants_stage sha256 now size fuel expire db clean d5 s5 in
    let (d7, e7, s7, g7, p7) = requests_stage sha256 now size fuel expire db clean d6 s6 g6 in
    let first = sweep_at revoked (λ delta db. revoked_query now delta) (suc size) fuel in
    let orphans = batch_delete (refresh_where (λ db. orphan_query)) (suc size) fuel in
    let expired = sweep_at expire (expired_query now) (suc size) fuel in
    let access = batch_delete (access_where now) (suc size) fuel in
    let ids = batch_delete (id_where now) (suc size) fuel in
    let grants = batch_delete (grants_where now) (suc size) fuel in
    let requests = batch_delete (par_where now) (suc size) fuel in
    let r2 = chain first orphans db d1 d2 e1 e2 in
    let r3 = chain (first >=> orphans) expired db d2 d3 r2 e3 in
    let r4 = chain (first >=> orphans >=> expired) access db d3 d4 r3 e4 in
    let r5 = chain (first >=> orphans >=> expired >=> access) ids db d4 d5 r4 e5 in
    let r6 = chain (first >=> orphans >=> expired >=> access >=> ids) grants db d5 d6 r5 e6 in
    let r7 =
      chain (first >=> orphans >=> expired >=> access >=> ids >=> grants) requests db d6 d7 r6 e7 in
    (
      d7,
      r7,
      record {
        tidy = s7.tidy;
        kept = s7.kept;
        no_spent =
            All-imp _ _ (λ r h. due_same revoked now db d7 r h.0.1) d7.refresh_tokens
              s7.refresh_clean;
        no_orphan = All-imp _ _ (λ r h. h.1) d7.refresh_tokens s7.refresh_clean;
        no_grant = g7;
        no_request = p7;
      },
    )

-- With batches that are not empty, more fuel than rows and valid settings, clear_expired ends; it
-- keeps every live refresh token in its lifetime, and leaves no orphan, no revoked token past its
-- cutoff, and no grant or pushed request whose expiry is before now.
pub clear_expired-ends :
    (env : Env) (size fuel : ℕ) (limits : Option ℕ × Option ℕ) (db : Database)
    → cutoffs env.settings ≡ ok limits
    → env.settings.clear_expired_tokens_batch_size ≡ suc size
    → IsTidy env.sha256 fuel db
    → (db' : Database) × (clear_expired env fuel db ≡ ok (some db'))
      × IsSwept env.sha256 env.now fuel limits db db'
unfolding clear_expired
clear_expired-ends env size fuel limits db configured batch tidy =
    let (db', ends, swept) = sweep-ends env.sha256 env.now size fuel limits db tidy in
    (db', rw (configured, batch) (ap (λ o. ok o) ends), swept)
