-- ===== src/Models/Revoke.antt =====
-- Revocation in oauth2_provider/models.py: `revoke` of the two token models, `revoke_family`, the
-- shared `revoke_access_token`, and the lifetime setting of refresh tokens.
use django_oauth_toolkit.Prelude.{
  ℕ, zero, suc, not, ◌&&◌, Option, none, some, ◌==◌, is_some, points_to, find?, any, update_where,
}
use django_oauth_toolkit.Settings.{
  Env, Seconds, unset, seconds, negative, malformed, Result, ok, err, improperly_configured,
}
use django_oauth_toolkit.Models.Rows.{AccessToken, RefreshToken}
use django_oauth_toolkit.Models.Database.{
  Database, bound_access, delete_access_where, checksum_pre_save,
}

-- `AbstractAccessToken.revoke`
unfoldable pub revoke_access : ℕ → Database → Database
unfolding delete_access_where
revoke_access pk = delete_access_where (λ a. a.pk == pk)

-- What `AbstractRefreshToken.revoke` saves on the locked row.
unfoldable pub repudiate : Env → RefreshToken → RefreshToken
unfolding checksum_pre_save
repudiate env r = record r {
  access_token = none;
  revoked = some env.now;
  token_checksum = checksum_pre_save env.sha256 none r.token r.token_checksum;
}

abbrev pub drop_bound : Option AccessToken → Database → Database
drop_bound none db = db
drop_bound (some a) db = revoke_access a.pk db

-- `AbstractRefreshToken.revoke` of the row with the given key: a row that is revoked already, or
-- gone, is left alone.
unfoldable pub revoke : Env → ℕ → Database → Database
unfolding repudiate
revoke env pk db = elim (find? (λ r. r.pk == pk && not (is_some r.revoked)) db.refresh_tokens) [
  | none ↦ db
  | some t ↦
      let db' = drop_bound (bound_access db t) db in
      record db' {
        refresh_tokens = update_where (λ r. r.pk == pk) (repudiate env) db'.refresh_tokens;
      }
]

-- `AbstractRefreshToken.revoke_family`
unfoldable pub revoke_family : Env → Option ℕ → Database → Database
unfolding delete_access_where
revoke_family env none db = db
revoke_family env (some family) db =
    let stamped =
      update_where (λ r. points_to r.token_family family && not (is_some r.revoked))
        (λ r. record r { revoked = some env.now }) db.refresh_tokens in
    delete_access_where
      (λ a. any (λ r. points_to r.token_family family && points_to r.access_token a.pk) stamped)
      (record db { refresh_tokens = stamped })

-- The module's `revoke_access_token`.
unfoldable pub revoke_access_token : Env → AccessToken → Database → Database
unfolding revoke revoke_access
revoke_access_token env a db = elim (find? (λ r. points_to r.access_token a.pk) db.refresh_tokens) [
  | none ↦ revoke_access a.pk db
  | some r ↦ revoke env r.pk db
]

-- `refresh_token_expire_timedelta`
unfoldable pub refresh_token_expire_timedelta : Seconds → Result (Option ℕ)
refresh_token_expire_timedelta unset = ok none
refresh_token_expire_timedelta (seconds zero) = ok none
refresh_token_expire_timedelta (seconds (suc n)) = ok (some (suc n))
refresh_token_expire_timedelta (negative n) = err improperly_configured
refresh_token_expire_timedelta malformed = err improperly_configured
