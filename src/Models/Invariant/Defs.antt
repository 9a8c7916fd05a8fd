-- ===== src/Models/Invariant/Defs.antt =====
-- The invariant of the token tables.
use mathlib.Core.Option
use django_oauth_toolkit.Prelude.{
  IsKeyed, ℕ, String, ◌<◌, ◌≡◌, sym, ap, ◌∙◌, ◌⊎◌, Option, none, some, List, map, ◌==◌, All,
  All-total, is_some, true, find?-map,
}
use django_oauth_toolkit.Models.Rows.{AccessToken, RefreshToken}
use django_oauth_toolkit.Models.Database.{Database, find_access, find_refresh}

-- The stored checksum is that of the stored token, unless the token is redacted.
abbrev pub IsSealed : (String → String) → RefreshToken → Type 0
IsSealed sha256 r = (r.token ≡ "") ⊎ (r.token_checksum ≡ sha256 r.token)

-- A revoked refresh token has no access token.
abbrev pub IsDetached : RefreshToken → Type 0
IsDetached r = (r.revoked ≡ none) ⊎ (r.access_token ≡ none)

-- The access token of a refresh token is stored, and was issued to the same application.
abbrev pub LinkedTo : List AccessToken → ℕ → Option ℕ → Type 0
LinkedTo access application none = Unit
LinkedTo access application (some k) =
    (a : AccessToken) × (find_access k access ≡ some a) × (a.application ≡ some application)

abbrev pub IsLinked : List AccessToken → RefreshToken → Type 0
IsLinked access r = LinkedTo access r.application r.access_token

-- The refresh token that an access token was minted with, while it is stored, is of the same
-- application, and was revoked by that.
abbrev pub SourcedTo : List RefreshToken → Option ℕ → Option ℕ → Type 0
SourcedTo refresh application none = Unit
SourcedTo refresh application (some k) =
    (r : RefreshToken) × (find_refresh k refresh ≡ some r)
    × (application ≡ some r.application)
    × (is_some r.revoked ≡ true)

abbrev pub IsSourced : List RefreshToken → AccessToken → Type 0
IsSourced refresh a = SourcedTo refresh a.application a.source_refresh_token

-- A change of the rows that keeps keys, applications and revocations keeps the sources.
pub SourcedTo-map :
    (f : RefreshToken → RefreshToken)
    → ((r : RefreshToken) → (f r).pk ≡ r.pk)
    → ((r : RefreshToken) → (f r).application ≡ r.application)
    → ((r : RefreshToken) → is_some r.revoked ≡ true → is_some (f r).revoked ≡ true)
    → (refresh : List RefreshToken) (application o : Option ℕ) → SourcedTo refresh application o
    → SourcedTo (map f refresh) application o
SourcedTo-map f pk-f application-f revoked-f refresh application none s = tt
SourcedTo-map f pk-f application-f revoked-f refresh application (some k) (r, found, same, spent) =
    (
      f r,
      find?-map _ _ refresh (All-total _ (λ b. ap (λ (j : ℕ). j == k) (pk-f b)) refresh)
          ∙ ap (Option.map f) found,
      same ∙ ap some (sym (application-f r)),
      revoked-f r spent,
    )

-- Primary keys are unique, and handed out in order.
pub record IsWellFormed (sha256 : String → String) (db : Database) : Type 0 where
  pub is_sealed : All (IsSealed sha256) db.refresh_tokens
  pub detached : All IsDetached db.refresh_tokens
  pub linked : All (IsLinked db.access_tokens) db.refresh_tokens
  pub sourced : All (IsSourced db.refresh_tokens) db.access_tokens
  pub keyed_access : IsKeyed (λ a. a.pk) db.access_tokens
  pub keyed_refresh : IsKeyed (λ r. r.pk) db.refresh_tokens
  pub fresh_access : All (λ a. a.pk < db.next_pk) db.access_tokens
  pub fresh_refresh : All (λ r. r.pk < db.next_pk) db.refresh_tokens
