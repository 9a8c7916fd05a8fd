-- ===== src/Validator/Refresh/Verdict.antt =====
-- When `validate_refresh_token` accepts a token.
use django_oauth_toolkit.Prelude.{
  ℕ, String, ◌≡◌, refl, ◌∙◌, ◌↔◌, ◌⊎◌, inl, inr, Bool, true, false, not, ◌&&◌, Option, none, some,
  ==_iff, arith, ap, is_some-get, Option-cases,
}
use django_oauth_toolkit.Settings.{Env, Result, ok, err, ◌>>=◌, >>=-eq-ok, ok-injective}
use django_oauth_toolkit.Models.Rows.{Application, AccessToken, RefreshToken}
use django_oauth_toolkit.Models.Database.{Database, bound_access, successor, find_refresh_checksum}
use django_oauth_toolkit.Models.Revoke.{refresh_token_expire_timedelta}
use django_oauth_toolkit.Validator.Request.{Request}
use django_oauth_toolkit.Validator.Refresh.{
  grace_expired, live_ok, row_ok, after_refusal, validate_found, validate_refresh_token, attach,
  outlived, verdict,
}

-- A token that was never revoked: it has its access token, and its lifetime is not over.
pub record IsLive (env : Env) (db : Database) (rt : RefreshToken) : Type 0 where
  pub never_revoked : rt.revoked ≡ none
  pub access : AccessToken
  pub bound : bound_access db rt ≡ some access
  pub lifetime : Option ℕ
  pub configured :
      refresh_token_expire_timedelta env.settings.refresh_token_expire_seconds ≡ ok lifetime
  pub in_time : outlived lifetime access.expires env.now ≡ false

-- A token that a rotation superseded, presented again within the grace period.
pub record IsInGrace (env : Env) (db : Database) (rt : RefreshToken) : Type 0 where
  pub at : ℕ
  pub revoked : rt.revoked ≡ some at
  pub in_grace : grace_expired env.settings.refresh_token_grace_period_seconds at env.now ≡ ok false
  pub next : AccessToken
  pub superseded : successor db rt.pk ≡ some next

pub record IsAccepted (env : Env) (token : String) (client : Application) (request : Request)
    (db : Database) (request' : Request) (db' : Database) : Type 0 where
  pub row : RefreshToken
  pub found : find_refresh_checksum db (env.sha256 token) ≡ some row
  pub own : row.application ≡ client.pk
  pub good : IsLive env db row ⊎ IsInGrace env db row
  pub attached : request' ≡ attach token row request
  pub unchanged : db' ≡ db

live_ok-IsLive :
    (env : Env) (db : Database) (rt : RefreshToken)
    → rt.revoked ≡ none
    → live_ok env (bound_access db rt) ≡ ok true
    → IsLive env db rt
unfolding live_ok
live_ok-IsLive env db rt never h = elim (Option-cases (bound_access db rt)) [
  | inl gone ↦ cc (ap (live_ok env) gone)
  | inr (a, bound) ↦
      let h' = rw bound at h in
      let (delta, configured, live) =
        >>=-eq-ok (refresh_token_expire_timedelta env.settings.refresh_token_expire_seconds)
          (λ d. ok (not (outlived d a.expires env.now))) h' in
      record {
        never_revoked = never;
        access = a;
        bound = bound;
        lifetime = delta;
        configured = configured;
        in_time = ground arith;
      }
]

-- What an accepting verdict says.
verdict-accepts :
    (good : Bool) (client : Application) (rt : RefreshToken) (before after : Request)
    (db swept : Database) (request' : Request) (db' : Database)
    → verdict good client rt before after db swept ≡ (true, request', db')
    → (good ≡ true) × (rt.application ≡ client.pk) × (request' ≡ after) × (db' ≡ db)
verdict-accepts true client rt before after db swept request' db' h = ground arith
verdict-accepts false client rt before after db swept request' db' h = ground arith

IsLive-live_ok :
    (env : Env) (db : Database) (rt : RefreshToken)
    → IsLive env db rt
    → live_ok env (bound_access db rt) ≡ ok true
unfolding live_ok
IsLive-live_ok env db rt l = rw (l.bound, live_ok) (rw l.configured (rw l.in_time))

grace_inversion :
    (expired : Result Bool) (used : Bool)
    → (expired >>= λ e. ok (not e && used)) ≡ ok true
    → (expired ≡ ok false) × (used ≡ true)
grace_inversion (ok true) used h = ground arith
grace_inversion (ok false) used h = ground arith
grace_inversion (err e) used h = cc

pub row_ok-IsGood :
    (env : Env) (db : Database) (rt : RefreshToken) (o : Option ℕ)
    → rt.revoked ≡ o
    → row_ok env db rt o ≡ ok true
    → IsLive env db rt ⊎ IsInGrace env db rt
unfolding row_ok
row_ok-IsGood env db rt none e h = inl (live_ok-IsLive env db rt e h)
row_ok-IsGood env db rt (some at) e h =
    let (in_grace, used) =
      grace_inversion (grace_expired env.settings.refresh_token_grace_period_seconds at env.now) _
        h in
    let (next, stored) = is_some-get (successor db rt.pk) used in
    inr (record { at = at; revoked = e; in_grace = in_grace; next = next; superseded = stored })

IsGood-row_ok :
    (env : Env) (db : Database) (rt : RefreshToken)
    → IsLive env db rt ⊎ IsInGrace env db rt
    → row_ok env db rt rt.revoked ≡ ok true
unfolding row_ok
IsGood-row_ok env db rt (inl l) = ap (row_ok env db rt) l.never_revoked ∙ IsLive-live_ok env db rt l
IsGood-row_ok env db rt (inr g) = ap (row_ok env db rt) g.revoked ∙ rw g.in_grace (rw g.superseded)

module _ (env : Env) (token : String) (client : Application) (request : Request) (db : Database)
    (request' : Request) (db' : Database) where
  found_accepts :
      (rt : RefreshToken)
      → find_refresh_checksum db (env.sha256 token) ≡ some rt
      → validate_found env token client rt request db ≡ ok (true, request', db')
      → IsAccepted env token client request db request' db'
  unfolding validate_found
  found_accepts rt found h =
      let (good, e, f) = >>=-eq-ok (row_ok env db rt rt.revoked) _ h in
      let (yes_good, own, after, same) =
        verdict-accepts good client rt request (attach token rt request) db
          (after_refusal env rt db rt.revoked) request' db' (ok-injective f) in
      record {
        row = rt;
        found = found;
        own = own;
        good = row_ok-IsGood env db rt rt.revoked refl (e ∙ ap ok yes_good);
        attached = after;
        unchanged = same;
      }

  accepts_sound :
      validate_refresh_token env token client request db ≡ ok (true, request', db')
      → IsAccepted env token client request db request' db'
  unfolding validate_refresh_token
  accepts_sound h = elim (Option-cases (find_refresh_checksum db (env.sha256 token))) [
    | inl missing ↦ cc (rw (missing, validate_refresh_token) at h)
    | inr (rt, found) ↦ found_accepts rt found (rw (found, validate_refresh_token) at h)
  ]

  accepts_complete :
      IsAccepted env token client request db request' db'
      → validate_refresh_token env token client request db ≡ ok (true, request', db')
  unfolding validate_refresh_token validate_found
  accepts_complete a = rw (
    a.found,
    validate_refresh_token,
    validate_found,
    IsGood-row_ok env db a.row a.good,
    a.attached,
    a.unchanged,
    (==_iff _ _).1 a.own,
  )

-- `validate_refresh_token` accepts a token, with the given request and tables as its result, exactly
-- if the token's checksum finds a row, the row belongs to the client, and either it was never
-- revoked, has its access token and is within its lifetime, or it is revoked, within the grace
-- period and was used to mint an access token that is still stored. The request then carries the
-- row and its user, and the tables are unchanged.
pub validate_refresh_token_accepts_iff :
    (env : Env) (token : String) (client : Application) (request : Request) (db : Database)
    (request' : Request) (db' : Database)
    → (validate_refresh_token env token client request db ≡ ok (true, request', db'))
      ↔ IsAccepted env token client request db request' db'
validate_refresh_token_accepts_iff env token client request db request' db' = (
  accepts_sound env token client request db request' db',
  accepts_complete env token client request db request' db',
)
