-- ===== src/Models/Invariant/Spent.antt =====
-- After `revoke` of oauth2_provider/models.py the row is revoked, and can be the source of a token.
use mathlib.Core.Option
use django_oauth_toolkit.Prelude.{
  ℕ, ◌≡◌, refl, sym, ◌∙◌, ap, inl, inr, true, not, ◌&&◌, Option, none, some, arith, is_some,
  Option-cases, ◌==◌, if◌then◌else◌, All-total, find?, find?-map, find?-All, find?-test,
  find?-eq-none,
}
use django_oauth_toolkit.Settings.{Env}
use django_oauth_toolkit.Models.Rows.{AccessToken, RefreshToken}
use django_oauth_toolkit.Models.Database.{
  Database, find_refresh, bound_access, detach, delete_access_where,
}
use django_oauth_toolkit.Models.Revoke.{revoke, repudiate, drop_bound, revoke_access}
use django_oauth_toolkit.Models.Invariant.Defs.{SourcedTo, IsWellFormed}

module _ (env : Env) (db : Database) (k : ℕ) (r : RefreshToken)
    (found : find_refresh k db.refresh_tokens ≡ some r) where
  find_refresh-drop_bound :
      (o : Option AccessToken)
      → (s : RefreshToken) × (find_refresh k (drop_bound o db).refresh_tokens ≡ some s)
        × (s.application ≡ r.application)
  unfolding revoke_access delete_access_where
  find_refresh-drop_bound none = (r, found, refl)
  find_refresh-drop_bound (some a) = (
    detach (λ b. b.pk == a.pk) db.access_tokens r,
    find?-map _ _ db.refresh_tokens (All-total _ (λ s. ground arith) db.refresh_tokens)
        ∙ ap (Option.map _) found,
    ground arith,
  )

  pub revoke-SourcedTo : SourcedTo (revoke env k db).refresh_tokens (some r.application) (some k)
  unfolding revoke repudiate
  revoke-SourcedTo =
      let key = find?-test _ db.refresh_tokens r found in
      elim (Option-cases (find? (λ r. r.pk == k && not (is_some r.revoked)) db.refresh_tokens)) [
        | inl gone ↦
            let missed =
              find?-All _ _ db.refresh_tokens r (find?-eq-none _ db.refresh_tokens gone) found in
            rw (gone, revoke) (r, found, refl, ground arith)
        | inr (t, locked) ↦
            let (s, kept, own) = find_refresh-drop_bound (bound_access db t) in
            let hit = find?-test _ (drop_bound (bound_access db t) db).refresh_tokens s kept in
            rw (locked, revoke)
              (
                (if s.pk == k then repudiate env s else s),
                find?-map _ _ (drop_bound (bound_access db t) db).refresh_tokens
                      (All-total _ (λ r. ground arith) _)
                    ∙ ap (Option.map _) kept,
                ground arith,
                ground arith,
              )
      ]

-- Revoking a row that is revoked already changes nothing.
pub revoke_spent :
    (env : Env) (db : Database) (k : ℕ) (r : RefreshToken)
    → IsWellFormed env.sha256 db
    → find_refresh k db.refresh_tokens ≡ some r
    → is_some r.revoked ≡ true
    → revoke env k db ≡ db
unfolding revoke
revoke_spent env db k r w found spent =
    elim (Option-cases (find? (λ r. r.pk == k && not (is_some r.revoked)) db.refresh_tokens)) [
      | inl gone ↦ rw (gone, revoke) refl
      | inr (t, locked) ↦
          let hit = find?-test _ db.refresh_tokens t locked in
          let key : t.pk ≡ k = ground arith in
          let self = find?-All _ _ db.refresh_tokens t w.keyed_refresh locked in
          let same : some t ≡ some r =
            sym self ∙ ap (λ j. find_refresh j db.refresh_tokens) key ∙ found in
          let row : t ≡ r = cc in ground arith
    ]
