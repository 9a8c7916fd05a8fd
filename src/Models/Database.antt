-- ===== src/Models/Database.antt =====
-- The tables of oauth2_provider/models.py and what Django's model layer does with them: lookups,
-- deletes with their SET_NULL and CASCADE effects, inserts with their unique constraints, and the
-- `pre_save` of the token checksum. A table lists its rows in the order of their primary keys.
use django_oauth_toolkit.Prelude.{
  ℕ, ◌+◌, String, Bool, false, not, ◌&&◌, ◌||◌, Option, none, some, List, [], ◌∷◌, ◌++◌, map, ◌==◌,
  str_eq, if◌then◌else◌, points_to, filter, find?, any, update_where,
}
use django_oauth_toolkit.Settings.{Settings, Result, ok, err, integrity_error}
use django_oauth_toolkit.Models.Rows.{
  Application, Grant, AccessToken, RefreshToken, IdToken, PushedRequest,
}

pub record Database : Type 0 where
  pub applications : List Application
  pub grants : List Grant
  pub access_tokens : List AccessToken
  pub refresh_tokens : List RefreshToken
  pub id_tokens : List IdToken
  pub pushed_requests : List PushedRequest
  pub next_pk : ℕ

abbrev pub find_access : ℕ → List AccessToken → Option AccessToken
find_access k = find? (λ a. a.pk == k)

abbrev pub find_refresh : ℕ → List RefreshToken → Option RefreshToken
find_refresh k = find? (λ r. r.pk == k)

-- The row that the `access_token` column of a refresh token refers to.
abbrev pub find_pointed : List AccessToken → Option ℕ → Option AccessToken
find_pointed access none = none
find_pointed access (some k) = find_access k access

abbrev pub bound_access : Database → RefreshToken → Option AccessToken
bound_access db r = find_pointed db.access_tokens r.access_token

-- `AccessToken.objects.filter(source_refresh_token=rt).first()`
abbrev pub successor : Database → ℕ → Option AccessToken
successor db k = find? (λ a. points_to a.source_refresh_token k) db.access_tokens

-- `RefreshToken.objects.filter(token_checksum=c).first()`
abbrev pub find_refresh_checksum : Database → String → Option RefreshToken
find_refresh_checksum db c = find? (λ r. str_eq r.token_checksum c) db.refresh_tokens

-- SET_NULL on `RefreshToken.access_token`, when the access tokens that pass the test are deleted.
abbrev pub detach : (AccessToken → Bool) → List AccessToken → RefreshToken → RefreshToken
detach gone access r =
    if any (λ a. gone a && points_to r.access_token a.pk) access
    then record r { access_token = none }
    else r

unfoldable pub delete_access_where : (AccessToken → Bool) → Database → Database
delete_access_where gone db = record db {
  access_tokens = filter (λ a. not (gone a)) db.access_tokens;
  refresh_tokens = map (detach gone db.access_tokens) db.refresh_tokens;
}

-- SET_NULL on `AccessToken.source_refresh_token`.
abbrev pub unsource : (RefreshToken → Bool) → List RefreshToken → AccessToken → AccessToken
unsource gone refresh a =
    if any (λ r. gone r && points_to a.source_refresh_token r.pk) refresh
    then record a { source_refresh_token = none }
    else a

unfoldable pub delete_refresh_where : (RefreshToken → Bool) → Database → Database
delete_refresh_where gone db = record db {
  refresh_tokens = filter (λ r. not (gone r)) db.refresh_tokens;
  access_tokens = map (unsource gone db.refresh_tokens) db.access_tokens;
}

-- CASCADE on `AccessToken.id_token`.
unfoldable pub delete_id_where : (IdToken → Bool) → Database → Database
unfolding delete_access_where
delete_id_where gone db =
    delete_access_where (λ a. any (λ i. gone i && points_to a.id_token i.pk) db.id_tokens)
      (record db { id_tokens = filter (λ i. not (gone i)) db.id_tokens })

-- What `set_token_value` leaves on a token instance: the column, and the raw value to hash.
pub record TokenValue : Type 0 where
  pub token : String
  pub raw_token : Option String

unfoldable pub set_token_value : Settings → String → TokenValue
set_token_value s raw_token =
    if s.compliant_bcp_rfc9700_token_storage
    then record { token = ""; raw_token = some raw_token }
    else record { token = raw_token; raw_token = none }

-- `TokenChecksumField.pre_save`: the checksum that a save writes.
unfoldable pub checksum_pre_save : (String → String) → Option String → String → String → String
checksum_pre_save sha256 (some raw_token) token checksum = sha256 raw_token
checksum_pre_save sha256 none token checksum = if str_eq token "" then checksum else sha256 token

-- Two values of a unique column that may be null.
abbrev pub same_key : Option ℕ → Option ℕ → Bool
same_key none q = false
same_key (some k) q = points_to q k

-- The unique constraints of the access token table: the checksum, and the two one-to-one columns.
abbrev pub access_clash : AccessToken → AccessToken → Bool
access_clash a b =
    str_eq b.token_checksum a.token_checksum
    || same_key b.source_refresh_token a.source_refresh_token
    || same_key b.id_token a.id_token

-- `save()` of a new access token.
unfoldable pub insert_access : AccessToken → Database → Result Database
insert_access a db =
    if any (access_clash a) db.access_tokens
    then err integrity_error
    else ok (record db { access_tokens = db.access_tokens ++ a ∷ []; next_pk = db.next_pk + 1 })

-- The unique constraints of the refresh token table.
abbrev pub refresh_clash : RefreshToken → RefreshToken → Bool
refresh_clash r b =
    str_eq b.token_checksum r.token_checksum || same_key b.access_token r.access_token

-- `save()` of a new refresh token.
unfoldable pub insert_refresh : RefreshToken → Database → Result Database
insert_refresh r db =
    if any (refresh_clash r) db.refresh_tokens
    then err integrity_error
    else ok (record db { refresh_tokens = db.refresh_tokens ++ r ∷ []; next_pk = db.next_pk + 1 })

-- `save()` of an access token that is stored: every column of its row is written.
unfoldable pub save_access : AccessToken → Database → Result Database
save_access a db =
    if any (λ b. not (b.pk == a.pk) && access_clash a b) db.access_tokens
    then err integrity_error
    else ok
        (record db { access_tokens = update_where (λ b. b.pk == a.pk) (λ b. a) db.access_tokens })
