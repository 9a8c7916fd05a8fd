-- ===== src/Validator/Revocation/Scope.antt =====
-- `revoke_token` acts on the tokens of its client only, and keeps the token tables well-formed.
use django_oauth_toolkit.Prelude.{
  ℕ, String, ◌≡◌, sym, ◌∙◌, ap, inl, inr, true, not, ◌&&◌, Option, none, some, List, [], ◌∷◌, All,
  All-imp, All-map, All-filter, arith, is_some, Bool-cases, Option-cases, ◌==◌, ==_iff, str_eq,
  points_to, points_to-eq, find?, update_where,
}
use django_oauth_toolkit.Settings.{Env}
use django_oauth_toolkit.Models.Rows.{AccessToken, RefreshToken}
use django_oauth_toolkit.Models.Database.{
  Database, find_access, find_refresh, bound_access, delete_access_where,
}
use django_oauth_toolkit.Models.Revoke.{
  revoke, revoke_access, repudiate, drop_bound, revoke_access_token,
}
use django_oauth_toolkit.Models.Invariant.Defs.{IsWellFormed}
use django_oauth_toolkit.Models.Invariant.Revokes.{
  revoke-IsWellFormed, revoke_access_token-IsWellFormed,
}
use django_oauth_toolkit.Validator.Request.{Request, client_pk}
use django_oauth_toolkit.Validator.Revocation.{
  Token, access, refresh, access_matches, refresh_matches, or_other, matches, revoke_one,
  revoke_all, revoke_of, revoke_token,
}
use django_oauth_toolkit.Validator.Revocation.Isolation.{
  IsIsolated, IsIsolated-same, IsIsolated-then, OwnsAccess, OwnsRefresh, revoke-IsIsolated,
  revoke_access_token-IsIsolated,
}

-- The row of a token, if it is stored, is the client's.
abbrev IsTheirs : ℕ → Database → Token → Type 0
IsTheirs application db (access a) = OwnsAccess application a.pk db
IsTheirs application db (refresh r) = OwnsRefresh application r.pk db

module _ (env : Env) (application : ℕ) where
  drop-IsTheirs :
      (o : Option AccessToken) (t : Token) (db : Database)
      → IsTheirs application db t
      → IsTheirs application (drop_bound o db) t
  unfolding revoke_access delete_access_where
  drop-IsTheirs none t db h = h
  drop-IsTheirs (some a) (access b) db h = All-filter _ _ db.access_tokens h
  drop-IsTheirs (some a) (refresh r) db h =
      All-map _ _ _ (λ s k. ground (arith, k)) db.refresh_tokens h

  save-IsTheirs :
      (k : ℕ) (t : Token) (db : Database)
      → IsTheirs application db t
      → IsTheirs application
          (record db {
            refresh_tokens = update_where (λ s. s.pk == k) (repudiate env) db.refresh_tokens;
          })
          t
  unfolding repudiate
  save-IsTheirs k (access a) db h = h
  save-IsTheirs k (refresh r) db h = All-map _ _ _ (λ s l. ground (arith, l)) db.refresh_tokens h

  revoke-IsTheirs :
      (k : ℕ) (t : Token) (db : Database)
      → IsTheirs application db t
      → IsTheirs application (revoke env k db) t
  unfolding revoke
  revoke-IsTheirs k t db h =
      elim (Option-cases (find? (λ s. s.pk == k && not (is_some s.revoked)) db.refresh_tokens)) [
        | inl gone ↦ rw (gone, revoke) h
        | inr (s, locked) ↦
            rw (locked, revoke)
              (save-IsTheirs k t (drop_bound (bound_access db s) db)
                (drop-IsTheirs (bound_access db s) t db h))
      ]

  revoke_one-IsTheirs :
      (u t : Token) (db : Database)
      → IsTheirs application db t
      → IsTheirs application (revoke_one env u db) t
  unfolding revoke_access_token
  revoke_one-IsTheirs (refresh r) t db h = revoke-IsTheirs r.pk t db h
  revoke_one-IsTheirs (access a) t db h =
      elim (Option-cases (find? (λ r. points_to r.access_token a.pk) db.refresh_tokens)) [
        | inl alone ↦ rw (alone, revoke_access_token) (drop-IsTheirs (some a) t db h)
        | inr (r, bound) ↦ rw (bound, revoke_access_token) (revoke-IsTheirs r.pk t db h)
      ]

  revoke_one-IsIsolated :
      (t : Token) (db : Database)
      → IsWellFormed env.sha256 db
      → IsTheirs application db t
      → IsIsolated application db (revoke_one env t db)
  revoke_one-IsIsolated (access a) db w h = revoke_access_token-IsIsolated env db w application a h
  revoke_one-IsIsolated (refresh r) db w h = revoke-IsIsolated env db w application r.pk h

  revoke_one-IsWellFormed :
      (t : Token) (db : Database)
      → IsWellFormed env.sha256 db
      → IsWellFormed env.sha256 (revoke_one env t db)
  revoke_one-IsWellFormed (access a) db w = revoke_access_token-IsWellFormed env a db w
  revoke_one-IsWellFormed (refresh r) db w = revoke-IsWellFormed env r.pk db w

  revoke_all-IsWellFormed :
      (found : List Token) (db : Database)
      → IsWellFormed env.sha256 db
      → IsWellFormed env.sha256 (revoke_all env found db)
  unfolding revoke_all
  revoke_all-IsWellFormed [] db w = w
  revoke_all-IsWellFormed (t ∷ found) db w =
      revoke_all-IsWellFormed found (revoke_one env t db) (revoke_one-IsWellFormed t db w)

  revoke_all-IsIsolated :
      (found : List Token) (db : Database)
      → IsWellFormed env.sha256 db
      → All (IsTheirs application db) found
      → IsIsolated application db (revoke_all env found db)
  unfolding revoke_all
  revoke_all-IsIsolated [] db w h = IsIsolated-same application db
  revoke_all-IsIsolated (t ∷ found) db w (own, rest) =
      let next = revoke_one env t db in
      IsIsolated-then application db next (revoke_all env found next)
        (revoke_one-IsIsolated t db w own)
        (revoke_all-IsIsolated found next (revoke_one-IsWellFormed t db w)
          (All-imp _ _ (λ u k. revoke_one-IsTheirs t u db k) found rest))

-- The lookup finds rows of the client only.
module _ (application : ℕ) (db : Database) (c : String) where
  access_matches-IsTheirs :
      (rows : List AccessToken)
      → All (λ a. points_to a.application application ≡ true → OwnsAccess application a.pk db) rows
      → All (IsTheirs application db) (access_matches c application rows)
  access_matches-IsTheirs [] h = tt
  access_matches-IsTheirs (a ∷ rows) (own, h) =
      let rest = access_matches-IsTheirs rows h in
      elim (Bool-cases (str_eq a.token_checksum c && points_to a.application application)) [
        | inl hit ↦ rw hit (own (ground arith), rest)
        | inr miss ↦ rw miss rest
      ]

  refresh_matches-IsTheirs :
      (rows : List RefreshToken)
      → All (λ r. (r.application == application) ≡ true → OwnsRefresh application r.pk db) rows
      → All (IsTheirs application db) (refresh_matches c application rows)
  refresh_matches-IsTheirs [] h = tt
  refresh_matches-IsTheirs (r ∷ rows) (own, h) =
      let rest = refresh_matches-IsTheirs rows h in
      elim (Bool-cases (str_eq r.token_checksum c && r.application == application)) [
        | inl hit ↦ rw hit (own (ground arith), rest)
        | inr miss ↦ rw miss rest
      ]

or_other-All {ℓ} :
    (P : Token → Type ℓ) (xs ys : List Token) → All P xs → All P ys → All P (or_other xs ys)
or_other-All P [] ys h k = k
or_other-All P (x ∷ xs) ys h k = h

matches-IsTheirs :
    (env : Env) (token hint : String) (application : ℕ) (db : Database)
    → IsWellFormed env.sha256 db
    → All (IsTheirs application db) (matches env token hint application db)
unfolding matches
matches-IsTheirs env token hint application db w =
    let c = env.sha256 token in
    let own_access = access_matches-IsTheirs application db c db.access_tokens (
      All-imp _ _
        (λ a self own.
          All-imp _ _
            (λ b found key.
              let twice : some b ≡ some a =
                sym found ∙ ap (λ j. find_access j db.access_tokens) key ∙ self in
              let row : b ≡ a = cc in
              ap (λ d. d.application) row ∙ points_to-eq a.application application own)
            db.access_tokens w.keyed_access)
        db.access_tokens w.keyed_access) in
    let own_refresh = refresh_matches-IsTheirs application db c db.refresh_tokens (
      All-imp _ _
        (λ r self own.
          All-imp _ _
            (λ s found key.
              let twice : some s ≡ some r =
                sym found ∙ ap (λ j. find_refresh j db.refresh_tokens) key ∙ self in
              let row : s ≡ r = cc in
              ap (λ d. d.application) row ∙ (==_iff r.application application).0 own)
            db.refresh_tokens w.keyed_refresh)
        db.refresh_tokens w.keyed_refresh) in
    elim (Bool-cases (str_eq hint "refresh_token")) [
      | inl first ↦ rw first (or_other-All _ _ _ own_refresh own_access)
      | inr later ↦ rw later (or_other-All _ _ _ own_access own_refresh)
    ]

-- `revoke_token`, in well-formed tables, leaves every access token and every refresh token of the other
-- clients stored as it was, whatever token and hint the client presents.
pub revoke_token-IsIsolated :
    (env : Env) (token hint : String) (request : Request) (db : Database) (application : ℕ)
    → IsWellFormed env.sha256 db
    → client_pk request ≡ some application
    → IsIsolated application db (revoke_token env token hint request db)
unfolding revoke_token revoke_of
revoke_token-IsIsolated env token hint request db application w own = rw own (
    revoke_all-IsIsolated env application (matches env token hint application db) db w
      (matches-IsTheirs env token hint application db w))

revoke_of-IsWellFormed :
    (env : Env) (token hint : String) (db : Database) (o : Option ℕ)
    → IsWellFormed env.sha256 db
    → IsWellFormed env.sha256 (revoke_of env token hint db o)
unfolding revoke_of
revoke_of-IsWellFormed env token hint db none w = w
revoke_of-IsWellFormed env token hint db (some application) w =
    revoke_all-IsWellFormed env application (matches env token hint application db) db w

-- `revoke_token` keeps the token tables well-formed.
pub revoke_token-IsWellFormed :
    (env : Env) (token hint : String) (request : Request) (db : Database)
    → IsWellFormed env.sha256 db
    → IsWellFormed env.sha256 (revoke_token env token hint request db)
unfolding revoke_token
revoke_token-IsWellFormed env token hint request db w =
    revoke_of-IsWellFormed env token hint db (client_pk request) w
