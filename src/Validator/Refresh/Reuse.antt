-- ===== src/Validator/Refresh/Reuse.antt =====
-- Reuse protection in `validate_refresh_token`.
use django_oauth_toolkit.Prelude.{
  ℕ, String, ◌≡◌, refl, inl, inr, ◌∙◌, ap, Bool, true, false, some, All, arith, if◌then◌else◌,
}
use django_oauth_toolkit.Settings.{Env, ok, >>=-eq-ok, ok-injective}
use django_oauth_toolkit.Models.Rows.{Application, RefreshToken}
use django_oauth_toolkit.Models.Database.{Database, find_refresh_checksum}
use django_oauth_toolkit.Models.Revoke.{revoke_family}
use django_oauth_toolkit.Models.Invariant.Defs.{IsWellFormed}
use django_oauth_toolkit.Models.Invariant.Family.{
  IsSwept, IsCut, revoke_family-IsSwept, revoke_family-IsCut,
}
use django_oauth_toolkit.Validator.Request.{Request}
use django_oauth_toolkit.Validator.Refresh.{
  row_ok, after_refusal, on_reuse, validate_found, validate_refresh_token, attach, verdict,
}
use django_oauth_toolkit.Validator.Refresh.Verdict.{IsInGrace, row_ok-IsGood}

-- What a refusing verdict leaves.
verdict-refuses :
    (good : Bool) (client : Application) (rt : RefreshToken) (before after : Request)
    (db swept : Database) (b : Bool) (request' : Request) (db' : Database)
    → verdict good client rt before after db swept ≡ (b, request', db')
    → good ≡ false
    → (b ≡ false) × (db' ≡ swept)
verdict-refuses true client rt before after db swept b request' db' h k = cc
verdict-refuses false client rt before after db swept b request' db' h k = ground arith

-- A revoked row outside its grace period is not good.
not_good :
    (env : Env) (db : Database) (rt : RefreshToken) (at : ℕ) (good : Bool)
    → rt.revoked ≡ some at
    → ¬ (IsInGrace env db rt)
    → row_ok env db rt rt.revoked ≡ ok good
    → good ≡ false
not_good env db rt at false revoked outside h = refl
not_good env db rt at true revoked outside h = elim (row_ok-IsGood env db rt rt.revoked refl h) [
  | inl live ↦ cc (live.never_revoked, revoked)
  | inr grace ↦ absurd (outside grace)
]

on_reuse-family :
    (env : Env) (rt : RefreshToken) (db : Database) (family : ℕ)
    → env.settings.refresh_token_reuse_protection ≡ true
    → rt.token_family ≡ some family
    → on_reuse env rt db ≡ revoke_family env (some family) db
unfolding on_reuse
on_reuse-family env rt db family on member =
    ap (λ b. if b then revoke_family env rt.token_family db else db) on
    ∙ ap (λ o. revoke_family env o db) member

-- With reuse protection, presenting a revoked refresh token that is not in its grace period, or was
-- never used, refuses it and sweeps its family: afterwards every refresh token of the family is
-- revoked and bound to no access token, and the access tokens that they were bound to before are no
-- longer stored.
pub validate_refresh_token-IsSwept :
    (env : Env) (token : String) (client : Application) (request : Request) (db : Database)
    (rt : RefreshToken) (at family : ℕ) (b : Bool) (request' : Request) (db' : Database)
    → IsWellFormed env.sha256 db
    → env.settings.refresh_token_reuse_protection ≡ true
    → find_refresh_checksum db (env.sha256 token) ≡ some rt
    → rt.revoked ≡ some at
    → rt.token_family ≡ some family
    → ¬ (IsInGrace env db rt)
    → validate_refresh_token env token client request db ≡ ok (b, request', db')
    → (b ≡ false)
      × All (IsSwept family) db'.refresh_tokens
      × All (IsCut family db'.access_tokens) db.refresh_tokens
unfolding validate_refresh_token validate_found after_refusal
validate_refresh_token-IsSwept env token client request db rt at family b request' db' w on found
      revoked member outside h =
    let h' = rw (found, validate_refresh_token) at h in
    let (good, e, f) = >>=-eq-ok (row_ok env db rt rt.revoked) _ h' in
    let (refused, same) =
      verdict-refuses good client rt request (attach token rt request) db
        (after_refusal env rt db rt.revoked) b request' db' (ok-injective f)
        (not_good env db rt at good revoked outside e) in
    let swept : db' ≡ revoke_family env (some family) db =
      same ∙ ap (after_refusal env rt db) revoked ∙ on_reuse-family env rt db family on member in
    (
      refused,
      rw swept (revoke_family-IsSwept env family db w),
      rw swept (revoke_family-IsCut env family db),
    )
