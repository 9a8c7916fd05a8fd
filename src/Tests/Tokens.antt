-- ===== src/Tests/Tokens.antt =====
-- The theorems on tokens at work on the example data.
use django_oauth_toolkit.Prelude.{
  ℕ, String, ◌≡◌, ◌≢◌, ◌↔◌, refl, sym, ap, true, false, none, some, [], ◌∷◌, All, str_eq,
  some_injective,
}
use django_oauth_toolkit.Settings.{seconds, ok}
use django_oauth_toolkit.Models.Rows.{RefreshToken}
use django_oauth_toolkit.Models.Database.{
  insert_access, insert_refresh, set_token_value, checksum_pre_save, delete_access_where,
}
use django_oauth_toolkit.Models.Revoke.{
  revoke, revoke_family, revoke_access_token, revoke_access, repudiate,
  refresh_token_expire_timedelta,
}
use django_oauth_toolkit.Models.Invariant.Defs.{IsWellFormed}
use django_oauth_toolkit.Models.Invariant.Revokes.{
  revoke-IsWellFormed, revoke_access_token-IsWellFormed,
}
use django_oauth_toolkit.Models.Invariant.Family.{
  IsSwept, IsCut, revoke_family-IsWellFormed, revoke_family-IsSwept,
}
use django_oauth_toolkit.Validator.Request.{several}
use django_oauth_toolkit.Validator.Resource.{
  check_and_set_request_resource, inherited, inherit, validate_resource_uris, find_grant, narrow,
}
use django_oauth_toolkit.ResourceServer.Uris.{parse_and_validate_uri, normpath}
use django_oauth_toolkit.Url.{urlsplit, hostname, port, has_userinfo}
use django_oauth_toolkit.Validator.Resource.Narrow.{IsNarrowed, check_and_set_request_resource_iff}
use django_oauth_toolkit.Validator.Refresh.{
  validate_found, row_ok, live_ok, after_refusal, on_reuse, attach, grace_expired,
  validate_refresh_token,
}
use django_oauth_toolkit.Validator.Refresh.Verdict.{
  IsInGrace, IsAccepted, validate_refresh_token_accepts_iff,
}
use django_oauth_toolkit.Validator.Refresh.Reuse.{validate_refresh_token-IsSwept}
use django_oauth_toolkit.Validator.Refresh.Repudiation.{revoke_rejects}
use django_oauth_toolkit.Validator.Create.{
  mint_pair, create_refresh_token, create_for, new_access, new_refresh,
}
use django_oauth_toolkit.Validator.Bearer.{
  save_bearer_token, save_scoped, store_tokens, save_with_refresh, save_presented, rotate,
  rotate_locked,
}
use django_oauth_toolkit.Validator.Bearer.Stored.{IsReady}
use django_oauth_toolkit.Validator.Bearer.Transaction.{
  save_bearer_token-IsWellFormed, validate_refresh_token-IsReady,
}
use django_oauth_toolkit.Validator.Bearer.Roundtrip.{IsInTime, IsUsable, issued_token_accepted}
use django_oauth_toolkit.Validator.Bearer.Rotation.{IsRotated, rotation}
use django_oauth_toolkit.Tests.{
  env, client, access, refresh, db, db-IsWellFormed, used, used-IsWellFormed, request, refreshing,
  token,
}

accepts_example :
    (validate_refresh_token env "rt" client request db ≡ ok (true, attach "rt" refresh request, db))
    ↔ IsAccepted env "rt" client request db (attach "rt" refresh request) db
accepts_example =
    validate_refresh_token_accepts_iff env "rt" client request db (attach "rt" refresh request) db

accepts_run :
    validate_refresh_token env "rt" client request db ≡ ok (true, attach "rt" refresh request, db)
unfolding validate_refresh_token validate_found row_ok live_ok refresh_token_expire_timedelta
accepts_run = refl

presented-IsReady_example : IsReady db (attach "rt" refresh request) (some refresh)
presented-IsReady_example =
    validate_refresh_token-IsReady env "rt" client request (attach "rt" refresh request) db db
      db-IsWellFormed refl accepts_run

revoke-IsWellFormed_example : IsWellFormed (λ s. s) (revoke env 11 db)
revoke-IsWellFormed_example = revoke-IsWellFormed env 11 db db-IsWellFormed

revoke_access_token-IsWellFormed_example : IsWellFormed (λ s. s) (revoke_access_token env access db)
revoke_access_token-IsWellFormed_example =
    revoke_access_token-IsWellFormed env access db db-IsWellFormed

revoke_family-IsWellFormed_example : IsWellFormed (λ s. s) (revoke_family env (some 3) used)
revoke_family-IsWellFormed_example = revoke_family-IsWellFormed env (some 3) used used-IsWellFormed

revoke_family-IsSwept_example : All (IsSwept 3) (revoke_family env (some 3) used).refresh_tokens
revoke_family-IsSwept_example = revoke_family-IsSwept env 3 used used-IsWellFormed

revoke_rejects_example :
    validate_refresh_token env "rt" client request (revoke env 11 db)
    ≢ ok (true, attach "rt" refresh request, db)
revoke_rejects_example =
    revoke_rejects env env "rt" db refresh client request (attach "rt" refresh request) db
      db-IsWellFormed refl refl refl refl

abbrev spent : RefreshToken
spent = record refresh { access_token = none; revoked = some 50 }

late : (at : ℕ) → at ≡ 50 → grace_expired (seconds 0) at 100 ≡ ok true
unfolding grace_expired
late at e = ap (λ a. grace_expired (seconds 0) a 100) e

used_too_late : ¬ (IsInGrace env used spent)
used_too_late g =
    let same : 50 ≡ g.at = some_injective g.revoked in cc (late g.at (sym same), g.in_grace)

swept_run :
    validate_refresh_token env "rt" client request used
    ≡ ok (false, request, revoke_family env (some 3) used)
unfolding validate_refresh_token validate_found row_ok grace_expired after_refusal on_reuse
swept_run = refl

swept_example :
    (false ≡ false)
    × All (IsSwept 3) (revoke_family env (some 3) used).refresh_tokens
    × All (IsCut 3 (revoke_family env (some 3) used).access_tokens) used.refresh_tokens
swept_example =
    validate_refresh_token-IsSwept env "rt" client request used spent 50 3 false request
      (revoke_family env (some 3) used) used-IsWellFormed refl refl refl refl used_too_late
      swept_run

saved-IsWellFormed_example : IsWellFormed (λ s. s) (save_bearer_token env token refreshing db).1
saved-IsWellFormed_example =
    save_bearer_token-IsWellFormed env token refreshing db db-IsWellFormed (record {
      linked = (access, refl, refl);
      own = refl;
      locked = λ r e. ap (λ s. s.application) (sym (some_injective e));
    })

in_time : IsInTime env env 36100
unfolding refresh_token_expire_timedelta
in_time = record { same_hash = refl; lifetime = some 1000; configured = refl; in_time = refl }

not_empty : ◌≢◌ {A = String} "rt3" ""
not_empty h = cc (ap (λ s. str_eq s "") h)

issued_run : save_bearer_token env token request db ≡ (
  ok (token, record request { resource = several [] }),
  (save_bearer_token env token request db).1,
)
unfolding save_bearer_token save_scoped check_and_set_request_resource inherited inherit
    validate_resource_uris find_grant store_tokens save_with_refresh mint_pair create_refresh_token
    create_for insert_access insert_refresh new_access new_refresh set_token_value checksum_pre_save
issued_run = refl

issued_example : IsUsable env "rt3" client (some 7) (save_bearer_token env token request db).1
issued_example =
    issued_token_accepted env env token request db client "rt3" token
      (record request { resource = several [] }) (save_bearer_token env token request db).1
      db-IsWellFormed refl not_empty refl refl in_time issued_run

rotation_run : save_bearer_token env token refreshing db ≡ (
  ok (
    token,
    record refreshing {
      refresh_token_instance = none;
      resource = several ("https://api.test/v1" ∷ []);
    },
  ),
  (save_bearer_token env token refreshing db).1,
)
unfolding save_bearer_token save_scoped check_and_set_request_resource inherited inherit
    validate_resource_uris find_grant store_tokens save_with_refresh mint_pair create_refresh_token
    create_for insert_access insert_refresh new_access new_refresh set_token_value checksum_pre_save
    save_presented rotate rotate_locked revoke revoke_access delete_access_where repudiate
    parse_and_validate_uri urlsplit hostname port has_userinfo normpath narrow
rotation_run = refl

rotation_example : IsRotated env "rt3" client refresh (save_bearer_token env token refreshing db).1
rotation_example =
    rotation env env token refreshing db client "rt3" refresh refresh token _
      (save_bearer_token env token refreshing db).1 db-IsWellFormed refl not_empty refl refl refl
      refl refl refl in_time rotation_run

resource_check_example :
    (check_and_set_request_resource env refreshing db
      ≡ ok (record refreshing { resource = several ("https://api.test/v1" ∷ []) }))
    ↔ IsNarrowed env refreshing db
        (record refreshing { resource = several ("https://api.test/v1" ∷ []) })
resource_check_example =
    check_and_set_request_resource_iff env refreshing db
      (record refreshing { resource = several ("https://api.test/v1" ∷ []) })
