-- ===== src/Models/Invariant/Inserts.antt =====
-- Appended and rewritten rows keep the invariant.
use mathlib.Core.Option
use mathlib.Core.Path.{subst₂}
use django_oauth_toolkit.Prelude.{
  map-IsKeyed, append_one-IsKeyed, ℕ, ◌+◌, String, ◌≡◌, sym, ◌∙◌, ap, inl, inr, true, false, Option,
  none, some, List, [], ◌∷◌, ◌++◌, arith, Bool-cases, ◌==◌, ==_refl, ==_iff, if◌then◌else◌,
  All-append_one, All-imp, All-map, All-total, find?-append, find?-append_new, find?-map,
  find?-test, find?-All, update_where, ◌⊎◌,
}
use django_oauth_toolkit.Models.Rows.{AccessToken, RefreshToken}
use django_oauth_toolkit.Models.Database.{Database, find_access}
use django_oauth_toolkit.Models.Invariant.Defs.{
  IsSealed, IsDetached, LinkedTo, IsLinked, SourcedTo, IsSourced, IsWellFormed,
}

module _ (db : Database) where
  abbrev pub with_access : AccessToken → Database
  with_access a = record db { access_tokens = db.access_tokens ++ a ∷ []; next_pk = db.next_pk + 1 }

  abbrev pub with_refresh : RefreshToken → Database
  with_refresh r = record db {
    refresh_tokens = db.refresh_tokens ++ r ∷ [];
    next_pk = db.next_pk + 1;
  }

  abbrev pub with_saved : AccessToken → Database
  with_saved a = record db {
    access_tokens = update_where (λ b. b.pk == a.pk) (λ b. a) db.access_tokens;
  }

LinkedTo-append :
    (access : List AccessToken) (a : AccessToken) (application : ℕ) (o : Option ℕ)
    → LinkedTo access application o
    → LinkedTo (access ++ a ∷ []) application o
LinkedTo-append access a application none l = tt
LinkedTo-append access a application (some k) (b, found, same) =
    (b, find?-append _ access (a ∷ []) b found, same)

SourcedTo-append :
    (refresh : List RefreshToken) (r : RefreshToken) (application o : Option ℕ)
    → SourcedTo refresh application o
    → SourcedTo (refresh ++ r ∷ []) application o
SourcedTo-append refresh r application none l = tt
SourcedTo-append refresh r application (some k) (b, found, same, spent) =
    (b, find?-append _ refresh (r ∷ []) b found, same, spent)

-- A new access token is found by its primary key.
pub find_access-with_access :
    (sha256 : String → String) (db : Database) (a : AccessToken)
    → IsWellFormed sha256 db
    → a.pk ≡ db.next_pk
    → find_access a.pk (with_access db a).access_tokens ≡ some a
find_access-with_access sha256 db a w e =
    find?-append_new _ db.access_tokens a
      (All-imp _ _ (λ b h. ground arith) db.access_tokens w.fresh_access) (==_refl a.pk)

module _ (sha256 : String → String) (db : Database) (w : IsWellFormed sha256 db) where
  pub with_access-IsWellFormed :
      (a : AccessToken)
      → a.pk ≡ db.next_pk
      → IsSourced db.refresh_tokens a
      → IsWellFormed sha256 (with_access db a)
  with_access-IsWellFormed a e s = record {
    sourced = All-append_one _ db.access_tokens a w.sourced s;
    is_sealed = w.is_sealed;
    detached = w.detached;
    linked =
        All-imp _ _ (λ r. LinkedTo-append db.access_tokens a r.application r.access_token)
          db.refresh_tokens w.linked;
    keyed_access =
        append_one-IsKeyed _ db.access_tokens a db.next_pk w.fresh_access e w.keyed_access;
    keyed_refresh = w.keyed_refresh;
    fresh_access =
        All-append_one _ db.access_tokens a
          (All-imp _ _ (λ b h. omega arith) db.access_tokens w.fresh_access) (omega arith);
    fresh_refresh = All-imp _ _ (λ r h. omega arith) db.refresh_tokens w.fresh_refresh;
  }

  pub with_refresh-IsWellFormed :
      (r : RefreshToken)
      → r.pk ≡ db.next_pk
      → IsSealed sha256 r
      → IsDetached r
      → IsLinked db.access_tokens r
      → IsWellFormed sha256 (with_refresh db r)
  with_refresh-IsWellFormed r e s d l = record {
    sourced =
        All-imp _ _ (λ a. SourcedTo-append db.refresh_tokens r a.application a.source_refresh_token)
          db.access_tokens w.sourced;
    is_sealed = All-append_one _ db.refresh_tokens r w.is_sealed s;
    detached = All-append_one _ db.refresh_tokens r w.detached d;
    linked = All-append_one _ db.refresh_tokens r w.linked l;
    keyed_access = w.keyed_access;
    keyed_refresh =
        append_one-IsKeyed _ db.refresh_tokens r db.next_pk w.fresh_refresh e w.keyed_refresh;
    fresh_access = All-imp _ _ (λ b h. omega arith) db.access_tokens w.fresh_access;
    fresh_refresh =
        All-append_one _ db.refresh_tokens r
          (All-imp _ _ (λ b h. omega arith) db.refresh_tokens w.fresh_refresh) (omega arith);
  }

saved_application :
    (access : List AccessToken) (a b c : AccessToken) (application k : ℕ)
    → find_access a.pk access ≡ some b
    → b.application ≡ a.application
    → find_access k access ≡ some c
    → c.application ≡ some application
    → ((c.pk == a.pk) ≡ true) ⊎ ((c.pk == a.pk) ≡ false)
    → (if c.pk == a.pk then a else c).application ≡ some application
saved_application access a b c application k found same at_k own (inr other) = rw other own
saved_application access a b c application k found same at_k own (inl hit) =
    let key : c.pk ≡ k = (==_iff c.pk k).0 (find?-test _ access c at_k) in
    let at_a : a.pk ≡ k = sym ((==_iff c.pk a.pk).0 hit) ∙ key in
    let both : some b ≡ some c = sym found ∙ ap (λ j. find_access j access) at_a ∙ at_k in
    let row : b ≡ c = cc in rw hit (sym same ∙ ap (λ d. d.application) row ∙ own)

LinkedTo-saved :
    (access : List AccessToken) (a b : AccessToken) (application : ℕ) (o : Option ℕ)
    → find_access a.pk access ≡ some b
    → b.application ≡ a.application
    → LinkedTo access application o
    → LinkedTo (update_where (λ c. c.pk == a.pk) (λ c. a) access) application o
LinkedTo-saved access a b application none found same l = tt
LinkedTo-saved access a b application (some k) found same (c, at_k, own) = (
  if c.pk == a.pk then a else c,
  find?-map _ _ access (All-total _ (λ d. ground arith) access) ∙ ap (Option.map _) at_k,
  saved_application access a b c application k found same at_k own (Bool-cases (c.pk == a.pk)),
)

saved_source :
    (refresh : List RefreshToken) (a b : AccessToken)
    → b.source_refresh_token ≡ a.source_refresh_token
    → b.application ≡ a.application
    → IsSourced refresh b
    → IsSourced refresh a
saved_source refresh a b source same h = subst₂ (SourcedTo refresh) same source h

-- Writing a stored access token anew, for its own application, keeps the tables well-formed.
pub with_saved-IsWellFormed :
    (sha256 : String → String) (db : Database) (a b : AccessToken)
    → IsWellFormed sha256 db
    → find_access a.pk db.access_tokens ≡ some b
    → b.application ≡ a.application
    → b.source_refresh_token ≡ a.source_refresh_token
    → IsWellFormed sha256 (with_saved db a)
with_saved-IsWellFormed sha256 db a b w found same source = record {
  sourced =
      All-map _ _ _
        (λ c h. elim (Bool-cases (c.pk == a.pk)) [
          | inl hit ↦ rw hit (
              saved_source db.refresh_tokens a b source same
                (find?-All _ _ db.access_tokens b w.sourced found))
          | inr miss ↦ rw miss h
        ])
        db.access_tokens w.sourced;
  is_sealed = w.is_sealed;
  detached = w.detached;
  linked =
      All-imp _ _ (λ r. LinkedTo-saved db.access_tokens a b r.application r.access_token found same)
        db.refresh_tokens w.linked;
  keyed_access = map-IsKeyed _ _ (λ c. ground arith) db.access_tokens w.keyed_access;
  keyed_refresh = w.keyed_refresh;
  fresh_access = All-map _ _ _ (λ c h. ground arith) db.access_tokens w.fresh_access;
  fresh_refresh = w.fresh_refresh;
}
