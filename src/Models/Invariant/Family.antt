-- ===== src/Models/Invariant/Family.antt =====
-- `revoke_family` keeps the invariant, and leaves no member of the family alive.
use django_oauth_toolkit.Prelude.{
  refl, ◌∙◌, ap, ==_refl, ◌==◌, filter, [], ◌∷◌, All-total, find?-filter-none, map-IsKeyed,
  filter-IsKeyed, ℕ, String, ◌≡◌, inl, inr, Bool, true, false, not, ◌&&◌, Option, none, some, List,
  map, points_to, is_some, arith, any, All, All-map, All-imp, All-both, All-filter, All-any_self,
  find?-test, find?-any_of, Bool-cases, Option-cases, if◌then◌else◌, ==_iff,
}
use django_oauth_toolkit.Settings.{Env}
use django_oauth_toolkit.Models.Rows.{AccessToken, RefreshToken}
use django_oauth_toolkit.Models.Database.{Database, find_access, detach, delete_access_where}
use django_oauth_toolkit.Models.Revoke.{revoke_family}
use django_oauth_toolkit.Models.Invariant.Defs.{
  IsSealed, IsDetached, IsLinked, SourcedTo-map, IsWellFormed,
}
use django_oauth_toolkit.Models.Invariant.Deletes.{
  detach-IsSealed, detach-IsLinked, detach-IsDetached, pk-detach, application-detach, spent-detach,
}

-- A row of the family has been revoked and has lost its access token.
abbrev pub IsSwept : ℕ → RefreshToken → Type 0
IsSwept family r =
    points_to r.token_family family ≡ true → (is_some r.revoked ≡ true) × (r.access_token ≡ none)

-- The access token of a row of the family is stored no more.
abbrev pub IsCut : ℕ → List AccessToken → RefreshToken → Type 0
IsCut family access r =
    points_to r.token_family family ≡ true
    → (k : ℕ) → r.access_token ≡ some k
    → find_access k access ≡ none

module _ (gone : AccessToken → Bool) (access : List AccessToken) (r : RefreshToken) where
  revoked-detach : (detach gone access r).revoked ≡ r.revoked
  revoked-detach = ground arith

  token_family-detach : (detach gone access r).token_family ≡ r.token_family
  token_family-detach = ground arith

module _ (env : Env) (family : ℕ) where
  -- The update of `revoke_family` on one row.
  abbrev stamp : RefreshToken → RefreshToken
  stamp r =
      if points_to r.token_family family && not (is_some r.revoked)
      then record r { revoked = some env.now }
      else r

  abbrev binds : RefreshToken → ℕ → Bool
  binds r k = points_to r.token_family family && points_to r.access_token k

  -- The access tokens that the sweep deletes.
  abbrev swept : List RefreshToken → AccessToken → Bool
  swept rows a = any (λ r. binds r a.pk) rows

  detached_after :
      (rows : List RefreshToken) (access : List AccessToken) (r : RefreshToken)
      → IsLinked access r
      → ((k : ℕ) → binds r k ≡ true → any (λ s. binds s k) rows ≡ true)
      → points_to r.token_family family ≡ true
      → (detach (swept rows) access r).access_token ≡ none
  detached_after rows access r linked self member = elim (Option-cases r.access_token) [
    | inl alone ↦ ground arith
    | inr (k, e) ↦
        let (a, found, same) = rw e at linked in
        let at_k : a.pk ≡ k = (==_iff a.pk k).0 (find?-test _ access a found) in
        let binding : binds r a.pk ≡ true = ground arith in
        let cut : any (λ b. swept rows b && points_to r.access_token b.pk) access ≡ true =
          find?-any_of _ _ access a found (ground (arith, self a.pk binding)) in
        rw cut
  ]

  -- What is known of each row between the update and the delete.
  abbrev IsReady : List RefreshToken → List AccessToken → RefreshToken → Type 0
  IsReady rows access r =
      IsLinked access r
      × ((k : ℕ) → binds r k ≡ true → any (λ s. binds s k) rows ≡ true)
      × ((points_to r.token_family family ≡ true → is_some r.revoked ≡ true)
          × (points_to r.token_family family ≡ false → IsDetached r))

  ready_swept :
      (rows : List RefreshToken) (access : List AccessToken) (r : RefreshToken)
      → IsReady rows access r
      → IsSwept family (detach (swept rows) access r) × IsDetached (detach (swept rows) access r)
  ready_swept rows access r (linked, self, (yes_member, no_member)) =
      elim (Bool-cases (points_to r.token_family family)) [
        | inl member ↦
            let lost = detached_after rows access r linked self member in
            (λ _. (rw (revoked-detach (swept rows) access r) (yes_member member), lost), inr lost)
        | inr other ↦ (
          λ m. cc (token_family-detach (swept rows) access r, m, other),
          detach-IsDetached (swept rows) access r (no_member other),
        )
      ]

  stamp-IsSealed :
      (sha256 : String → String) (r : RefreshToken) → IsSealed sha256 r → IsSealed sha256 (stamp r)
  stamp-IsSealed sha256 r h = ground arith

  stamp-IsLinked :
      (access : List AccessToken) (r : RefreshToken) → IsLinked access r → IsLinked access (stamp r)
  stamp-IsLinked access r h =
      elim (Bool-cases (points_to r.token_family family && not (is_some r.revoked))) [
        | inl hit ↦ rw hit h
        | inr miss ↦ rw miss h
      ]

  application-stamp : (r : RefreshToken) → (stamp r).application ≡ r.application
  application-stamp r = ground arith

  revoked-stamp : (r : RefreshToken) → is_some r.revoked ≡ true → is_some (stamp r).revoked ≡ true
  revoked-stamp r h = ground arith

  pk-stamp : (r : RefreshToken) → (stamp r).pk ≡ r.pk
  pk-stamp r = ground arith

  stamp-covered :
      (r : RefreshToken)
      → IsDetached r
      → (points_to (stamp r).token_family family ≡ true → is_some (stamp r).revoked ≡ true)
        × (points_to (stamp r).token_family family ≡ false → IsDetached (stamp r))
  stamp-covered r h = (λ m. ground arith, λ m. ground arith)

  binds-stamp : (r : RefreshToken) (k : ℕ) → binds (stamp r) k ≡ binds r k
  binds-stamp r k = ground arith

  -- What a row bound before the update is among what the rows bind after it.
  binds_after :
      (rows : List RefreshToken)
      → All (λ r. (k : ℕ) → binds r k ≡ true → any (λ s. binds s k) (map stamp rows) ≡ true) rows
  binds_after [] = tt
  binds_after (r ∷ rows) = (
    λ k h. let here = binds-stamp r k ∙ h in rw here refl,
    All-imp _ _ (λ x h k b. ground (arith, h k b)) rows (binds_after rows),
  )

  -- All rows with the key of a token that is swept are swept.
  IsCut-access :
      (rows : List RefreshToken) (access : List AccessToken) (r : RefreshToken)
      → ((k : ℕ) → binds r k ≡ true → any (λ s. binds s k) rows ≡ true)
      → IsCut family (filter (λ a. not (swept rows a)) access) r
  IsCut-access rows access r bound = λ member k e.
      let binding : binds r k ≡ true = ground (arith, ==_refl k) in
      let gone : (a : AccessToken) → (a.pk == k) ≡ true → not (swept rows a) ≡ false = λ a same.
        ap not (ap (λ j. any (λ s. binds s j) rows) ((==_iff a.pk k).0 same) ∙ bound k binding) in
      find?-filter-none _ _ access (All-total _ gone access)

  module _ (sha256 : String → String) (db : Database) (w : IsWellFormed sha256 db) where
    stamped : List RefreshToken
    stamped = map stamp db.refresh_tokens

    stamped-IsReady : All (IsReady stamped db.access_tokens) stamped
    unfolding stamped
    stamped-IsReady =
        All-imp _ _ (λ r h. (h.0, h.1.0, h.1.1)) stamped
          (All-both _ _ stamped
            (All-map _ _ stamp (stamp-IsLinked db.access_tokens) db.refresh_tokens w.linked)
            (All-both _ _ stamped (All-any_self binds stamped)
              (All-map _ _ stamp stamp-covered db.refresh_tokens w.detached)))

    All-IsSwept :
        All
          (λ r. IsSwept family r × IsDetached r)
          (revoke_family env (some family) db).refresh_tokens
    unfolding revoke_family delete_access_where stamped
    All-IsSwept = All-map _ _ _ (ready_swept stamped db.access_tokens) stamped stamped-IsReady

    family-IsWellFormed : IsWellFormed sha256 (revoke_family env (some family) db)
    unfolding revoke_family delete_access_where stamped
    family-IsWellFormed =
        let gone = swept stamped in
        let access = db.access_tokens in
        let refresh = db.refresh_tokens in
        record {
          is_sealed =
              All-map _ _ _ (detach-IsSealed gone access sha256) stamped
                (All-map _ _ stamp (stamp-IsSealed sha256) refresh w.is_sealed);
          detached = All-imp _ _ (λ r h. h.1) _ All-IsSwept;
          linked =
              All-map _ _ _ (detach-IsLinked gone access) stamped
                (All-map _ _ stamp (stamp-IsLinked access) refresh w.linked);
          sourced = All-filter _ _ _ (
              All-imp _ _
                (λ a h.
                  SourcedTo-map (detach gone access) (pk-detach gone access)
                    (application-detach gone access) (spent-detach gone access) stamped
                    a.application a.source_refresh_token
                    (SourcedTo-map stamp pk-stamp application-stamp revoked-stamp refresh
                      a.application a.source_refresh_token h))
                access w.sourced);
          keyed_access = filter-IsKeyed _ _ access w.keyed_access;
          keyed_refresh =
              map-IsKeyed _ _ (pk-detach gone access) stamped
                (map-IsKeyed _ stamp pk-stamp refresh w.keyed_refresh);
          fresh_access = All-filter _ _ access w.fresh_access;
          fresh_refresh =
              All-map _ _ _ (λ r h. rw pk-detach h) stamped
                (All-map _ _ stamp (λ r h. rw pk-stamp h) refresh w.fresh_refresh);
        }

-- Sweeping a family keeps the tables well-formed.
pub revoke_family-IsWellFormed :
    (env : Env) (family : Option ℕ) (db : Database)
    → IsWellFormed env.sha256 db
    → IsWellFormed env.sha256 (revoke_family env family db)
unfolding revoke_family
revoke_family-IsWellFormed env none db w = w
revoke_family-IsWellFormed env (some family) db w = family-IsWellFormed env family env.sha256 db w

-- After the sweep of a family in well-formed tables every refresh token of the family is revoked and
-- bound to no access token.
pub revoke_family-IsSwept :
    (env : Env) (family : ℕ) (db : Database)
    → IsWellFormed env.sha256 db
    → All (IsSwept family) (revoke_family env (some family) db).refresh_tokens
revoke_family-IsSwept env family db w =
    All-imp _ _ (λ r h. h.0) _ (All-IsSwept env family env.sha256 db w)

-- After the sweep of a family no access token of a refresh token of it is stored.
pub revoke_family-IsCut :
    (env : Env) (family : ℕ) (db : Database)
    → All (IsCut family (revoke_family env (some family) db).access_tokens) db.refresh_tokens
unfolding revoke_family delete_access_where
revoke_family-IsCut env family db =
    All-imp _ _
      (IsCut-access env family (map (stamp env family) db.refresh_tokens) db.access_tokens)
      db.refresh_tokens (binds_after env family db.refresh_tokens)
