-- ===== src/ResourceServer/Bearer/Cache.antt =====
-- What a resource server caches of an introspected token.
use django_oauth_toolkit.Prelude.{
  if◌then◌else◌, ℕ, ◌+◌, ◌≤◌, String, inl, inr, ◌≡◌, refl, sym, ◌∙◌, ap, true, Option, none, some,
  List, arith, Bool-cases, Option-cases, ◌==◌, ==_iff, some_injective, IsKeyed,
}
use mathlib.Core.Path.{subst}
use django_oauth_toolkit.Settings.{Env}
use django_oauth_toolkit.Models.Rows.{AccessToken}
use django_oauth_toolkit.Models.Database.{Database}
use django_oauth_toolkit.ResourceServer.Bearer.Stores.{
  IsUntouched, IsSaved, update_or_create-IsSaved, update_or_create-IsUntouched,
}
use django_oauth_toolkit.ResourceServer.Bearer.{
  Content, Introspected, unreachable, not_json, answered, ResourceServer, capped, resource_of,
  text_of, user_of, defaults, find_checksum, update_or_create, saved, cache_token,
}

-- What the cache holds after an introspection: a row of an active token, found under the checksum of
-- the token, which it holds in the clear only if hashed storage is off, with the user, the scope and
-- the audience of the answer, that expires neither after the claim nor after the caching time. Only the
-- table of access tokens is written.
pub record IsCached (r : ResourceServer) (env : Env) (token : String) (answer : Introspected)
    (db db' : Database) (a : AccessToken) : Type 0 where
  pub content : Content
  pub claimed : answer ≡ answered 200 content
  pub active : content.active ≡ true
  pub checksum : a.token_checksum ≡ env.sha256 token
  pub stored : find_checksum (env.sha256 token) db' ≡ some a
  pub raw : a.token ≡ (if env.settings.compliant_bcp_rfc9700_token_storage then "" else token)
  pub user : a.user ≡ user_of r content.username
  pub scope : a.scope ≡ text_of content.scope
  pub expires_in_time : a.expires ≤ env.now + r.token_caching_seconds
  pub expires_claimed : (exp : ℕ) → content.exp ≡ some exp → a.expires ≤ exp
  pub audience : resource_of content.aud ≡ some a.resource
  pub no_application : a.application ≡ none
  pub one_table : db' ≡ record db { access_tokens = db'.access_tokens; next_pk = db'.next_pk }

capped-le : (limit : ℕ) (exp : Option ℕ) → capped limit exp ≤ limit
capped-le limit none = omega arith
capped-le limit (some exp) = ground arith

capped-le-exp : (limit : ℕ) (exp : Option ℕ) (e : ℕ) → exp ≡ some e → capped limit exp ≤ e
capped-le-exp limit none e h = cc
capped-le-exp limit (some exp) e h = let same : exp ≡ e = some_injective h in ground (arith, same)

defaults-checksum :
    (r : ResourceServer) (env : Env) (token : String) (content : Content) (aud : List String)
    (a : AccessToken)
    → (defaults r env token content aud a).token_checksum ≡ a.token_checksum
unfolding defaults
defaults-checksum r env token content aud a = refl

-- What `cache_token` does with an answer that it takes.
record IsTaken (r : ResourceServer) (env : Env) (token : String) (answer : Introspected)
    (db db' : Database) (a : AccessToken) : Type 0 where
  pub content : Content
  pub aud : List String
  pub claimed : answer ≡ answered 200 content
  pub active : content.active ≡ true
  pub audience : resource_of content.aud ≡ some aud
  pub row : (update_or_create (env.sha256 token) (defaults r env token content aud) db).0 ≡ a
  pub after : (update_or_create (env.sha256 token) (defaults r env token content aud) db).1 ≡ db'

cache_token-get :
    (r : ResourceServer) (env : Env) (token : String) (answer : Introspected) (db db' : Database)
    (a : AccessToken)
    → cache_token r env token answer db ≡ (some a, db')
    → IsTaken r env token answer db db' a
unfolding cache_token
cache_token-get r env token unreachable db db' a h = cc
cache_token-get r env token not_json db db' a h = cc
cache_token-get r env token (answered status content) db db' a h =
    elim (Bool-cases (status == 200)) [
      | inr bad ↦ cc (rw (cache_token, bad) at h)
      | inl good ↦ elim (Bool-cases content.active) [
        | inr dead ↦ cc (rw (cache_token, good, dead) at h)
        | inl active ↦ elim (Option-cases (resource_of content.aud)) [
          | inl malformed ↦ cc (rw (cache_token, good, active, malformed) at h)
          | inr (aud, e) ↦
              let write = defaults r env token content aud in
              let both : saved (update_or_create (env.sha256 token) write db) ≡ (some a, db') =
                rw (cache_token, good, active, e) at h in
              record {
                content = content;
                aud = aud;
                claimed = ap (λ n. answered n content) ((==_iff status 200).0 good);
                active = active;
                audience = e;
                row = some_injective (ap (λ x. x.0) both);
                after = ap (λ x. x.1) both;
              }
        ]
      ]
    ]

pub answer-IsCached :
    (r : ResourceServer) (env : Env) (token : String) (answer : Introspected) (db db' : Database)
    (a : AccessToken)
    → cache_token r env token answer db ≡ (some a, db')
    → IsCached r env token answer db db' a
unfolding defaults
answer-IsCached r env token answer db db' a h =
    let t = cache_token-get r env token answer db db' a h in
    let write = defaults r env token t.content t.aud in
    let s : IsSaved (env.sha256 token) write (defaults-checksum r env token t.content t.aud) db db'
        a =
      subst
        (λ d.
          IsSaved (env.sha256 token) write (defaults-checksum r env token t.content t.aud) db d a)
        t.after
        (subst
          (IsSaved (env.sha256 token) write (defaults-checksum r env token t.content t.aud) db
            (update_or_create (env.sha256 token) write db).1)
          t.row
          (update_or_create-IsSaved (env.sha256 token) write
            (defaults-checksum r env token t.content t.aud) db)) in
    let is : a ≡ write s.before = s.is_write in
    let limit = env.now + r.token_caching_seconds in
    record {
      content = t.content;
      claimed = t.claimed;
      active = t.active;
      checksum = s.checksum_of;
      stored = s.found;
      raw = ap (λ (x : AccessToken). x.token) is;
      user = ap (λ (x : AccessToken). x.user) is;
      scope = ap (λ (x : AccessToken). x.scope) is;
      expires_in_time = rw is (capped-le limit t.content.exp);
      expires_claimed = λ exp claim. rw is (capped-le-exp limit t.content.exp exp claim);
      audience = t.audience ∙ ap some (ap (λ (x : AccessToken). x.resource) (sym is));
      no_application = ap (λ (x : AccessToken). x.application) is;
      one_table = s.only;
    }

-- Where keys are unique, a token that is cached after an introspection is a row of an active token, by
-- the answer, that is stored under the checksum of the token and expires in time; under every other
-- checksum the same row is found as before.
pub cache_token-IsCached :
    (r : ResourceServer) (env : Env) (token : String) (answer : Introspected) (db db' : Database)
    (a : AccessToken)
    → IsKeyed (λ (x : AccessToken). x.pk) db.access_tokens
    → cache_token r env token answer db ≡ (some a, db')
    → IsCached r env token answer db db' a × IsUntouched (env.sha256 token) db db'
cache_token-IsCached r env token answer db db' a keyed h =
    let t = cache_token-get r env token answer db db' a h in
    (
      answer-IsCached r env token answer db db' a h,
      subst (IsUntouched (env.sha256 token) db) t.after (
          update_or_create-IsUntouched (env.sha256 token) (defaults r env token t.content t.aud)
            (defaults-checksum r env token t.content t.aud) db keyed),
    )
