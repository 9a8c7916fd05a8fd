-- ===== src/Validator/Revocation/Isolation.antt =====
-- Revoking a client's tokens leaves the tokens of the other clients as they were.
use mathlib.Core.Option
use mathlib.Core.Path.{subst}
use django_oauth_toolkit.Prelude.{
  points_to-eq, ℕ, ◌≡◌, ◌≢◌, refl, sym, ◌∙◌, ap, inl, inr, false, not, ◌&&◌, Option, none, some,
  List, [], ◌∷◌, All, All-imp, All-total, arith, is_some, Bool-cases, Option-cases, ◌==◌, ==_iff,
  points_to, find?, find?-filter, find?-map, find?-All, find?-test, any, update_where,
  some_injective,
}
use django_oauth_toolkit.Settings.{Env}
use django_oauth_toolkit.Models.Rows.{AccessToken, RefreshToken}
use django_oauth_toolkit.Models.Database.{
  Database, find_access, find_refresh, find_pointed, bound_access, delete_access_where,
}
use django_oauth_toolkit.Models.Revoke.{
  revoke, revoke_access, repudiate, drop_bound, revoke_access_token,
}
use django_oauth_toolkit.Models.Invariant.Defs.{LinkedTo, IsLinked, IsWellFormed}

-- The tokens of the other clients are stored as they were.
pub record IsIsolated (application : ℕ) (before after : Database) : Type 0 where
  pub access_kept :
      (k : ℕ) (a : AccessToken)
      → find_access k before.access_tokens ≡ some a
      → a.application ≢ some application
      → find_access k after.access_tokens ≡ some a
  pub refresh_kept :
      (k : ℕ) (r : RefreshToken)
      → find_refresh k before.refresh_tokens ≡ some r
      → r.application ≢ application
      → find_refresh k after.refresh_tokens ≡ some r

pub IsIsolated-same : (application : ℕ) (db : Database) → IsIsolated application db db
IsIsolated-same application db = record {
  access_kept = λ k a found other. found;
  refresh_kept = λ k r found other. found;
}

pub IsIsolated-then :
    (application : ℕ) (before middle after : Database)
    → IsIsolated application before middle
    → IsIsolated application middle after
    → IsIsolated application before after
IsIsolated-then application before middle after i j = record {
  access_kept = λ k a found other. j.access_kept k a (i.access_kept k a found other) other;
  refresh_kept = λ k r found other. j.refresh_kept k r (i.refresh_kept k r found other) other;
}

-- The row with the given key, if it is stored, is the client's.
abbrev pub OwnsAccess : ℕ → ℕ → Database → Type 0
OwnsAccess application k db =
    All (λ b. b.pk ≡ k → b.application ≡ some application) db.access_tokens

abbrev pub OwnsRefresh : ℕ → ℕ → Database → Type 0
OwnsRefresh application k db = All (λ r. r.pk ≡ k → r.application ≡ application) db.refresh_tokens

detached_any :
    (k : ℕ) (o : Option ℕ) (rows : List AccessToken)
    → points_to o k ≡ false
    → any (λ b. b.pk == k && points_to o b.pk) rows ≡ false
detached_any k o [] h = refl
detached_any k o (b ∷ rows) h = elim (Bool-cases (b.pk == k)) [
  | inl hit ↦
      let same : b.pk ≡ k = (==_iff b.pk k).0 hit in
      cc (hit, ap (points_to o) same, h, detached_any k o rows h)
  | inr miss ↦ cc (miss, detached_any k o rows h)
]

module _ (env : Env) (db : Database) (w : IsWellFormed env.sha256 db) (application : ℕ) where
  -- Another client's refresh token does not point to this client's access token.
  unbound :
      (k : ℕ) (r : RefreshToken)
      → OwnsAccess application k db
      → IsLinked db.access_tokens r
      → r.application ≢ application
      → points_to r.access_token k ≡ false
  unbound k r owns linked other = elim (Bool-cases (points_to r.access_token k)) [
    | inr miss ↦ miss
    | inl hit ↦
        let (b, at, theirs) =
          subst (LinkedTo db.access_tokens r.application) (points_to-eq r.access_token k hit)
            linked in
        let own =
          find?-All _ _ db.access_tokens b owns at
            ((==_iff b.pk k).0 (find?-test _ db.access_tokens b at)) in
        elim (other (some_injective (sym theirs ∙ own))) [ ]
  ]

  delete-IsIsolated :
      (k : ℕ) → OwnsAccess application k db → IsIsolated application db (revoke_access k db)
  unfolding revoke_access delete_access_where
  delete-IsIsolated k owns = record {
    access_kept = λ j b at other.
        find?-filter _ _ db.access_tokens b at (elim (Bool-cases (b.pk == k)) [
          | inr miss ↦ ap not miss
          | inl hit ↦
              elim (other (find?-All _ _ db.access_tokens b owns at ((==_iff b.pk k).0 hit))) [ ]
        ]);
    refresh_kept = λ j r at other.
        find?-map _ _ db.refresh_tokens (All-total _ (λ s. ground arith) db.refresh_tokens)
        ∙ ap (Option.map _) at
        ∙ ap some (
            rw
              (detached_any k r.access_token db.access_tokens
                (unbound k r owns (find?-All _ _ db.refresh_tokens r w.linked at) other))
              refl);
  }

  -- The access token of one of the client's refresh tokens is the client's.
  bound_own :
      (a : AccessToken) (o : Option ℕ)
      → LinkedTo db.access_tokens application o
      → find_pointed db.access_tokens o ≡ some a
      → OwnsAccess application a.pk db
  bound_own a none linked bound = cc
  bound_own a (some k) (b, at, own) bound =
      let both : some b ≡ some a = sym at ∙ bound in
      let same : b ≡ a = cc in
      let self = find?-All _ _ db.access_tokens a w.keyed_access bound in
      All-imp _ _
        (λ c found key.
          let twice : some c ≡ some a =
            sym found ∙ ap (λ j. find_access j db.access_tokens) key ∙ self in
          let row : c ≡ b = cc in ap (λ d. d.application) row ∙ own)
        db.access_tokens w.keyed_access

  drop-IsIsolated :
      (r : RefreshToken) (o : Option AccessToken)
      → IsLinked db.access_tokens r
      → r.application ≡ application
      → bound_access db r ≡ o
      → IsIsolated application db (drop_bound o db)
  drop-IsIsolated r none linked own bound = IsIsolated-same application db
  drop-IsIsolated r (some a) linked own bound = delete-IsIsolated a.pk (
      bound_own a r.access_token
        (subst (λ n. LinkedTo db.access_tokens n r.access_token) own linked) bound)

  save-IsIsolated :
      (middle : Database) (k : ℕ)
      → OwnsRefresh application k db
      → IsIsolated application db middle
      → IsIsolated application db (record middle {
        refresh_tokens = update_where (λ s. s.pk == k) (repudiate env) middle.refresh_tokens;
      })
  unfolding repudiate
  save-IsIsolated middle k owns i = record {
    access_kept = i.access_kept;
    refresh_kept = λ j s at other.
        find?-map _ _ middle.refresh_tokens (All-total _ (λ t. ground arith) middle.refresh_tokens)
        ∙ ap (Option.map _) (i.refresh_kept j s at other)
        ∙ ap some (elim (Bool-cases (s.pk == k)) [
          | inr miss ↦ rw miss refl
          | inl hit ↦
              elim (other (find?-All _ _ db.refresh_tokens s owns at ((==_iff s.pk k).0 hit))) [ ]
        ]);
  }

  pub revoke-IsIsolated :
      (k : ℕ) → OwnsRefresh application k db → IsIsolated application db (revoke env k db)
  unfolding revoke
  revoke-IsIsolated k owns =
      elim (Option-cases (find? (λ s. s.pk == k && not (is_some s.revoked)) db.refresh_tokens)) [
        | inl gone ↦ rw (gone, revoke) (IsIsolated-same application db)
        | inr (t, locked) ↦
            let hit = find?-test _ db.refresh_tokens t locked in
            rw (locked, revoke)
              (save-IsIsolated (drop_bound (bound_access db t) db) k owns (
                drop-IsIsolated t (bound_access db t)
                  (find?-All _ _ db.refresh_tokens t w.linked locked)
                  (find?-All _ _ db.refresh_tokens t owns locked (ground arith)) refl))
      ]

  pub revoke_access_token-IsIsolated :
      (a : AccessToken)
      → OwnsAccess application a.pk db
      → IsIsolated application db (revoke_access_token env a db)
  unfolding revoke_access_token
  revoke_access_token-IsIsolated a owns =
      elim (Option-cases (find? (λ r. points_to r.access_token a.pk) db.refresh_tokens)) [
        | inl alone ↦ rw (alone, revoke_access_token) (delete-IsIsolated a.pk owns)
        | inr (r, bound) ↦
            let at = points_to-eq r.access_token a.pk (find?-test _ db.refresh_tokens r bound) in
            let (b, stored, theirs) =
              subst (LinkedTo db.access_tokens r.application) at
                (find?-All _ _ db.refresh_tokens r w.linked bound) in
            let own =
              find?-All _ _ db.access_tokens b owns stored
                ((==_iff b.pk a.pk).0 (find?-test _ db.access_tokens b stored)) in
            let self = find?-All _ _ db.refresh_tokens r w.keyed_refresh bound in
            rw (bound, revoke_access_token)
              (revoke-IsIsolated r.pk (
                All-imp _ _
                  (λ c found key.
                    let twice : some c ≡ some r =
                      sym found ∙ ap (λ j. find_refresh j db.refresh_tokens) key ∙ self in
                    let row : c ≡ r = cc in
                    ap (λ d. d.application) row ∙ some_injective (sym theirs ∙ own))
                  db.refresh_tokens w.keyed_refresh))
      ]
