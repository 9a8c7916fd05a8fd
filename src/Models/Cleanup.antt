-- ===== src/Models/Cleanup.antt =====
-- `clear_expired` of oauth2_provider/models.py. A cutoff is the number of seconds before now, since an
-- instant before the epoch is no number here. The counts of deleted rows are only logged.
pub mod Batch
pub mod Unbound
pub mod Keeps
pub mod Stages
pub mod Total
use django_oauth_toolkit.Prelude.{
  ℕ, zero, suc, ◌+◌, Bool, true, false, not, ◌&&◌, Option, none, some, List, [], ◌∷◌, ltb, leb,
  ◌==◌, if◌then◌else◌, is_some, points_to, filter, any, take,
}
use django_oauth_toolkit.Settings.{
  Env, Settings, Seconds, unset, seconds, negative, malformed, Result, ok, err,
  improperly_configured, ◌>>=◌,
}
use django_oauth_toolkit.Models.Rows.{Grant, AccessToken, RefreshToken, IdToken, PushedRequest}
use django_oauth_toolkit.Models.Database.{
  Database, bound_access, delete_access_where, delete_refresh_where, delete_id_where,
}
use django_oauth_toolkit.Models.Revoke.{refresh_token_expire_timedelta}

-- A queryset: the rows of a table that pass a test, and how rows of the table are deleted.
pub record Queryset (A : Type 0) : Type 0 where
  pub rows : Database → List A
  pub key : A → ℕ
  pub matches : Database → A → Bool
  pub delete : (A → Bool) → Database → Database

-- `pk__in`
abbrev pub key_in {ℓ} : {A : Type ℓ} → (A → ℕ) → List A → A → Bool
key_in key batch a = any (λ b. key b == key a) batch

abbrev pub matching : {A : Type 0} → Queryset A → Database → List A
matching q db = filter (q.matches db) (q.rows db)

abbrev pub is_empty {ℓ} : {A : Type ℓ} → List A → Bool
is_empty [] = true
is_empty (a ∷ l) = false

-- `batch_delete`: none if the fuel runs out.
unfoldable pub batch_delete : {A : Type 0} → Queryset A → ℕ → ℕ → Database → Option Database
batch_delete q size zero db = none
batch_delete q size (suc fuel) db =
    let rest = batch_delete q size fuel (q.delete (key_in q.key (take size (matching q db))) db) in
    if is_empty (matching q db) then some db else rest

abbrev pub revoked_query : ℕ → ℕ → RefreshToken → Bool
revoked_query now delta r = elim r.revoked [ none ↦ false | some at ↦ leb (at + delta) now ]

abbrev pub orphan_query : RefreshToken → Bool
orphan_query r = not (is_some r.revoked) && not (is_some r.access_token)

abbrev pub expired_query : ℕ → ℕ → Database → RefreshToken → Bool
expired_query now delta db r =
    not (is_some r.revoked)
    && (elim (bound_access db r) [ none ↦ false | some a ↦ leb (a.expires + delta) now ])

abbrev pub access_token_query : ℕ → Database → AccessToken → Bool
access_token_query now db a =
    not (any (λ r. points_to r.access_token a.pk) db.refresh_tokens) && ltb a.expires now

abbrev pub id_token_query : ℕ → Database → IdToken → Bool
id_token_query now db i =
    not (any (λ a. points_to a.id_token i.pk) db.access_tokens) && ltb i.expires now

abbrev pub refresh_where : (Database → RefreshToken → Bool) → Queryset RefreshToken
refresh_where matches = record {
  rows = λ db. db.refresh_tokens;
  key = λ r. r.pk;
  matches = matches;
  delete = delete_refresh_where;
}

abbrev pub access_where : ℕ → Queryset AccessToken
access_where now = record {
  rows = λ db. db.access_tokens;
  key = λ a. a.pk;
  matches = access_token_query now;
  delete = delete_access_where;
}

abbrev pub id_where : ℕ → Queryset IdToken
id_where now = record {
  rows = λ db. db.id_tokens;
  key = λ i. i.pk;
  matches = id_token_query now;
  delete = delete_id_where;
}

abbrev pub grants_where : ℕ → Queryset Grant
grants_where now = record {
  rows = λ db. db.grants;
  key = λ g. g.pk;
  matches = λ db g. ltb g.expires now;
  delete = λ p db. record db { grants = filter (λ g. not (p g)) db.grants };
}

abbrev pub par_where : ℕ → Queryset PushedRequest
par_where now = record {
  rows = λ db. db.pushed_requests;
  key = λ p. p.pk;
  matches = λ db p. ltb p.expires now;
  delete = λ p db. record db { pushed_requests = filter (λ r. not (p r)) db.pushed_requests };
}

-- REFRESH_TOKEN_GRACE_PERIOD_SECONDS as `clear_expired` reads it.
unfoldable pub grace_delta : Seconds → Result ℕ
grace_delta unset = ok 0
grace_delta (seconds n) = ok n
grace_delta (negative n) = err improperly_configured
grace_delta malformed = err improperly_configured

-- The two cutoffs: for revoked refresh tokens and for expired ones; none deletes no token.
unfoldable pub cutoffs : Settings → Result (Option ℕ × Option ℕ)
cutoffs s = do
  grace ← grace_delta s.refresh_token_grace_period_seconds
  expire ← refresh_token_expire_timedelta s.refresh_token_expire_seconds
  ok (if s.refresh_token_reuse_protection then expire else some grace, expire)

-- A sweep that has a cutoff.
abbrev pub sweep_at :
    Option ℕ → (ℕ → Database → RefreshToken → Bool) → ℕ → ℕ → Database → Option Database
sweep_at none query size fuel db = some db
sweep_at (some delta) query size fuel db = batch_delete (refresh_where (query delta)) size fuel db

infixl 5 ◌>=>◌
abbrev pub ◌>=>◌ :
    (Database → Option Database) → (Database → Option Database) → Database → Option Database
◌>=>◌ first next db = elim (first db) [ none ↦ none | some db' ↦ next db' ]

-- The deletes, in their order.
unfoldable pub sweep : ℕ → ℕ → ℕ → Option ℕ × Option ℕ → Database → Option Database
sweep now size fuel (revoked, expire) =
    sweep_at revoked (λ delta db. revoked_query now delta) size fuel
    >=> batch_delete (refresh_where (λ db. orphan_query)) size fuel
    >=> sweep_at expire (expired_query now) size fuel
    >=> batch_delete (access_where now) size fuel
    >=> batch_delete (id_where now) size fuel
    >=> batch_delete (grants_where now) size fuel
    >=> batch_delete (par_where now) size fuel

-- `clear_expired`
unfoldable pub clear_expired : Env → ℕ → Database → Result (Option Database)
clear_expired env fuel db = do
  limits ← cutoffs env.settings
  ok (sweep env.now env.settings.clear_expired_tokens_batch_size fuel limits db)
