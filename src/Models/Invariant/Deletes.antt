-- ===== src/Models/Invariant/Deletes.antt =====
-- Deletes keep the invariant.
use mathlib.Core.Option
use django_oauth_toolkit.Prelude.{
  map-IsKeyed, filter-IsKeyed, ℕ, String, ◌≡◌, inl, inr, ap, ◌∙◌, Bool, true, false, is_some, not,
  ◌&&◌, Option, none, some, List, [], ◌∷◌, map, ◌==◌, points_to, arith, filter, any, All-map,
  All-imp, All-filter, find?-filter, Bool-cases, find?-map, All-total,
}
use django_oauth_toolkit.Models.Rows.{AccessToken, RefreshToken}
use django_oauth_toolkit.Models.Database.{
  Database, find_access, find_refresh, detach, delete_access_where, unsource, delete_refresh_where,
}
use django_oauth_toolkit.Models.Invariant.Defs.{
  IsSealed, IsDetached, LinkedTo, IsLinked, SourcedTo, IsSourced, SourcedTo-map, IsWellFormed,
}

module _ (gone : AccessToken → Bool) (access : List AccessToken) where
  pub detach-IsSealed :
      (sha256 : String → String) (r : RefreshToken)
      → IsSealed sha256 r
      → IsSealed sha256 (detach gone access r)
  detach-IsSealed sha256 r h = ground arith

  pub detach-IsDetached : (r : RefreshToken) → IsDetached r → IsDetached (detach gone access r)
  detach-IsDetached r h = ground arith

  abbrev points_gone : Option ℕ → AccessToken → Bool
  points_gone o a = gone a && points_to o a.pk

  -- The row that a kept pointer refers to is not among the deleted ones.
  kept_row :
      (k : ℕ) (rows : List AccessToken) (a : AccessToken)
      → find_access k rows ≡ some a
      → any (points_gone (some k)) rows ≡ false
      → gone a ≡ false
  kept_row k [] a e h = cc
  kept_row k (b ∷ rows) a e h = ground (arith, kept_row k rows a)

  LinkedTo-filter :
      (application : ℕ) (o : Option ℕ)
      → LinkedTo access application o
      → any (points_gone o) access ≡ false
      → LinkedTo (filter (λ a. not (gone a)) access) application o
  LinkedTo-filter application none l h = tt
  LinkedTo-filter application (some k) (a, found, same) h =
      (a, find?-filter _ _ access a found (rw (kept_row k access a found h)), same)

  pub detach-IsLinked :
      (r : RefreshToken)
      → IsLinked access r
      → IsLinked (filter (λ a. not (gone a)) access) (detach gone access r)
  detach-IsLinked r l = elim (Bool-cases (any (points_gone r.access_token) access)) [
    | inl cut ↦ rw cut tt
    | inr kept ↦ rw kept (LinkedTo-filter r.application r.access_token l kept)
  ]

  pub application-detach : (r : RefreshToken) → (detach gone access r).application ≡ r.application
  application-detach r = ground arith

  pub spent-detach :
      (r : RefreshToken) → is_some r.revoked ≡ true → is_some (detach gone access r).revoked ≡ true
  spent-detach r h = ground arith

  pub pk-detach : (r : RefreshToken) → (detach gone access r).pk ≡ r.pk
  pk-detach r = ground arith

-- Deleting access tokens, whatever the test, keeps the tables well-formed.
pub delete_access_where-IsWellFormed :
    (sha256 : String → String) (gone : AccessToken → Bool) (db : Database)
    → IsWellFormed sha256 db
    → IsWellFormed sha256 (delete_access_where gone db)
unfolding delete_access_where
delete_access_where-IsWellFormed sha256 gone db w = record {
  is_sealed =
      All-map _ _ _ (detach-IsSealed gone db.access_tokens sha256) db.refresh_tokens w.is_sealed;
  detached = All-map _ _ _ (detach-IsDetached gone db.access_tokens) db.refresh_tokens w.detached;
  linked = All-map _ _ _ (detach-IsLinked gone db.access_tokens) db.refresh_tokens w.linked;
  sourced = All-filter _ _ _ (
      All-imp _ _
        (λ a.
          SourcedTo-map (detach gone db.access_tokens) (pk-detach gone db.access_tokens)
            (application-detach gone db.access_tokens) (spent-detach gone db.access_tokens)
            db.refresh_tokens a.application a.source_refresh_token)
        db.access_tokens w.sourced);
  keyed_access = filter-IsKeyed _ _ db.access_tokens w.keyed_access;
  keyed_refresh =
      map-IsKeyed _ _ (pk-detach gone db.access_tokens) db.refresh_tokens w.keyed_refresh;
  fresh_access = All-filter _ _ db.access_tokens w.fresh_access;
  fresh_refresh = All-map _ _ _ (λ r h. rw pk-detach h) db.refresh_tokens w.fresh_refresh;
}

module _ (gone : RefreshToken → Bool) (refresh : List RefreshToken) where
  pk-unsource : (a : AccessToken) → (unsource gone refresh a).pk ≡ a.pk
  pk-unsource a = ground arith

  application-unsource : (a : AccessToken) → (unsource gone refresh a).application ≡ a.application
  application-unsource a = ground arith

  LinkedTo-unsource :
      (access : List AccessToken) (application : ℕ) (o : Option ℕ)
      → LinkedTo access application o
      → LinkedTo (map (unsource gone refresh) access) application o
  LinkedTo-unsource access application none l = tt
  LinkedTo-unsource access application (some k) (a, found, same) = (
    unsource gone refresh a,
    find?-map _ _ access (All-total _ (λ b. ap (λ (j : ℕ). j == k) (pk-unsource b)) access)
        ∙ ap (Option.map (unsource gone refresh)) found,
    application-unsource a ∙ same,
  )

  abbrev sources_gone : Option ℕ → RefreshToken → Bool
  sources_gone o r = gone r && points_to o r.pk

  kept_source :
      (k : ℕ) (rows : List RefreshToken) (r : RefreshToken)
      → find_refresh k rows ≡ some r
      → any (sources_gone (some k)) rows ≡ false
      → gone r ≡ false
  kept_source k [] r e h = cc
  kept_source k (b ∷ rows) r e h = ground (arith, kept_source k rows r)

  SourcedTo-filter :
      (application o : Option ℕ)
      → SourcedTo refresh application o
      → any (sources_gone o) refresh ≡ false
      → SourcedTo (filter (λ r. not (gone r)) refresh) application o
  SourcedTo-filter application none l h = tt
  SourcedTo-filter application (some k) (r, found, same, spent) h =
      (r, find?-filter _ _ refresh r found (rw (kept_source k refresh r found h)), same, spent)

  unsource-IsSourced :
      (a : AccessToken)
      → IsSourced refresh a
      → IsSourced (filter (λ r. not (gone r)) refresh) (unsource gone refresh a)
  unsource-IsSourced a s = elim (Bool-cases (any (sources_gone a.source_refresh_token) refresh)) [
    | inl cut ↦ rw cut tt
    | inr kept ↦ rw kept (SourcedTo-filter a.application a.source_refresh_token s kept)
  ]

-- So does deleting refresh tokens.
pub delete_refresh_where-IsWellFormed :
    (sha256 : String → String) (gone : RefreshToken → Bool) (db : Database)
    → IsWellFormed sha256 db
    → IsWellFormed sha256 (delete_refresh_where gone db)
unfolding delete_refresh_where
delete_refresh_where-IsWellFormed sha256 gone db w = record {
  is_sealed = All-filter _ _ db.refresh_tokens w.is_sealed;
  detached = All-filter _ _ db.refresh_tokens w.detached;
  linked = All-filter _ _ _ (
      All-imp _ _
        (λ r.
          LinkedTo-unsource gone db.refresh_tokens db.access_tokens r.application r.access_token)
        db.refresh_tokens w.linked);
  sourced = All-map _ _ _ (unsource-IsSourced gone db.refresh_tokens) db.access_tokens w.sourced;
  keyed_access =
      map-IsKeyed _ _ (pk-unsource gone db.refresh_tokens) db.access_tokens w.keyed_access;
  keyed_refresh = filter-IsKeyed _ _ db.refresh_tokens w.keyed_refresh;
  fresh_access = All-map _ _ _ (λ a h. rw pk-unsource h) db.access_tokens w.fresh_access;
  fresh_refresh = All-filter _ _ db.refresh_tokens w.fresh_refresh;
}
