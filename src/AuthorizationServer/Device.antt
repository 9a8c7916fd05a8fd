-- ===== src/AuthorizationServer/Device.antt =====
-- The device flow: `AbstractDeviceGrant` and `create_device_grant` of oauth2_provider/models.py, the
-- views of authorization_server/views/device.py, and the polling at the token endpoint in
-- views/base.py, with the hook of core/utils.py that gives the token its user. A user that these views ask for is logged in. The `last_checked` column is left out.
pub mod Steps
pub mod Runs
pub mod Verdicts
pub mod Accepted
pub mod Completes
use django_oauth_toolkit.Prelude.{
  ℕ, ◌+◌, String, Bool, true, false, not, ◌&&◌, Option, none, some, List, [], ◌∷◌, ◌++◌, ◌==◌,
  str_eq, leb, if◌then◌else◌, points_to, filter, find?, any, update_where,
}
use django_oauth_toolkit.Settings.{Result, ok, err, integrity_error, ◌>>=◌}
use django_oauth_toolkit.Text.{strip, join_words, split_words}
use django_oauth_toolkit.Models.Rows.{Application}

-- `DEVICE_FLOW_STATUS`; the column may hold another text.
pub data Status : Type 0 where
  authorized authorization_pending expired denied : Status
  other_status : String → Status

pub record DeviceGrant : Type 0 where
  pub pk : ℕ
  pub user : Option ℕ
  pub device_code : String
  pub user_code : String
  pub scope : String
  pub expires : ℕ
  pub status : Status
  pub client_id : String

-- The table of device grants, with its next key.
pub record Devices : Type 0 where
  pub grants : List DeviceGrant
  pub next_pk : ℕ

abbrev pub is_pending : Status → Bool
is_pending authorization_pending = true
is_pending authorized = false
is_pending expired = false
is_pending denied = false
is_pending (other_status s) = false

abbrev pub is_marked_expired : Status → Bool
is_marked_expired expired = true
is_marked_expired authorization_pending = false
is_marked_expired authorized = false
is_marked_expired denied = false
is_marked_expired (other_status s) = false

-- `save(update_fields=["status"])` and `save(update_fields=["user"])`
abbrev pub save_status : Status → ℕ → Devices → Devices
save_status s pk t = record t {
  grants = update_where (λ g. g.pk == pk) (λ g. record g { status = s }) t.grants;
}

abbrev pub save_user : ℕ → ℕ → Devices → Devices
save_user user pk t = record t {
  grants = update_where (λ g. g.pk == pk) (λ g. record g { user = some user }) t.grants;
}

-- `AbstractDeviceGrant.is_expired`, which writes what it finds.
unfoldable pub device_is_expired : ℕ → DeviceGrant → Devices → Bool × Devices
device_is_expired now g t =
    if is_marked_expired g.status
    then (true, t)
    else if leb g.expires now
    then (true, save_status expired g.pk t)
    else (false, t)

pub record DeviceRequest : Type 0 where
  pub client_id : String
  pub scope : Option String

-- The fields of `DeviceCodeResponse` that are stored.
pub record DeviceCodeResponse : Type 0 where
  pub expires_in : ℕ
  pub user_code : String
  pub device_code : String

-- `scope or ""`
abbrev pub scope_or : Option String → String
scope_or none = ""
scope_or (some s) = s

abbrev pub new_device_grant : ℕ → DeviceRequest → DeviceCodeResponse → Devices → DeviceGrant
new_device_grant now request response t = record {
  pk = t.next_pk;
  user = none;
  device_code = response.device_code;
  user_code = response.user_code;
  scope = scope_or request.scope;
  expires = now + response.expires_in;
  status = authorization_pending;
  client_id = request.client_id;
}

-- `create_device_grant`: the table has a unique constraint on `device_code`.
unfoldable pub create_device_grant :
    ℕ → DeviceRequest → DeviceCodeResponse → Devices → Result Devices
create_device_grant now request response t =
    if any (λ g. str_eq g.device_code response.device_code) t.grants
    then err integrity_error
    else ok (record {
      grants = t.grants ++ new_device_grant now request response t ∷ [];
      next_pk = t.next_pk + 1;
    })

-- What the device authorization endpoint answers; an error of oauthlib has its status.
pub data DeviceAuthorization : Type 0 where
  oauthlib_error : ℕ → DeviceAuthorization
  invalid_client : DeviceAuthorization
  device_authorization : DeviceCodeResponse → DeviceAuthorization

-- What oauthlib's `create_device_authorization_response` comes to.
pub data OauthlibAnswer : Type 0 where
  failed : ℕ → OauthlibAnswer
  answered : DeviceCodeResponse → OauthlibAnswer

-- The scope of the grant: the requested one, or the default scopes of the application.
unfoldable pub device_scope :
    (Application → List String) → List Application → String → String → Option String
device_scope get_default_scopes applications client_id scope =
    if str_eq (strip scope) ""
    then (elim (find? (λ a. str_eq a.client_id client_id) applications) [
      | none ↦ none
      | some application ↦ some (join_words (get_default_scopes application))
    ])
    else some (strip scope)

-- `DeviceAuthorizationView.post`; `scope` is the empty text if the parameter is missing.
unfoldable pub post_device_authorization :
    (Application → List String)
    → List Application
    → ℕ
    → OauthlibAnswer
    → String
    → String
    → Devices
    → Result (DeviceAuthorization × Devices)
post_device_authorization get_default_scopes applications now (failed status) client_id scope t =
    ok (oauthlib_error status, t)
post_device_authorization get_default_scopes applications now (answered response) client_id scope
      t =
    elim (device_scope get_default_scopes applications client_id scope) [
      | none ↦ ok (invalid_client, t)
      | some s ↦
          create_device_grant now (record { client_id = client_id; scope = some s }) response t
          >>= (λ t'. ok (device_authorization response, t'))
    ]

-- `objects.get`: `user_code` has no unique constraint.
pub data Found : Type 0 where
  missing several : Found
  one : DeviceGrant → Found

abbrev pub found_in : List DeviceGrant → Found
found_in [] = missing
found_in (g ∷ []) = one g
found_in (g ∷ h ∷ l) = several

abbrev pub get_where : (DeviceGrant → Bool) → Devices → Found
get_where p t = found_in (filter p t.grants)

pub data UserCodeAnswer : Type 0 where
  incorrect_user_code expired_user_code user_code_already_used multiple_objects : UserCodeAnswer
  to_confirm : String → String → UserCodeAnswer

-- The checks of `clean_user_code` on the grant, and `DeviceUserCodeView.form_valid`.
unfoldable pub submit_found : ℕ → ℕ → DeviceGrant → Devices → UserCodeAnswer × Devices
submit_found now user g t =
    let (is_over, t') = device_is_expired now g t in
    if is_over
    then (expired_user_code, t')
    else if not (is_pending g.status)
    then (user_code_already_used, t')
    else (to_confirm g.client_id g.user_code, save_user user g.pk t')

-- `DeviceUserCodeView.post`, for a user that is logged in.
unfoldable pub submit_user_code : ℕ → ℕ → String → Devices → UserCodeAnswer × Devices
submit_user_code now user user_code t = elim (get_where (λ g. str_eq g.user_code user_code) t) [
  | missing ↦ (incorrect_user_code, t)
  | several ↦ (multiple_objects, t)
  | one g ↦ submit_found now user g t
]

-- The filter of `DeviceConfirmView.get_object`.
abbrev pub is_confirmable : ℕ → String → String → DeviceGrant → Bool
is_confirmable user client_id user_code g =
    str_eq g.client_id client_id
    && str_eq g.user_code user_code
    && is_pending g.status
    && points_to g.user user

pub data ConfirmAnswer : Type 0 where
  not_found multiple_grants bad_request to_status : ConfirmAnswer

unfoldable pub decide : String → DeviceGrant → Devices → ConfirmAnswer × Devices
decide action g t =
    if str_eq action "accept"
    then (to_status, save_status authorized g.pk t)
    else if str_eq action "deny"
    then (to_status, save_status denied g.pk t)
    else (bad_request, t)

-- `DeviceConfirmView.form_valid`, for a user that is logged in.
unfoldable pub confirm_device : ℕ → String → String → String → Devices → ConfirmAnswer × Devices
confirm_device user client_id user_code action t =
    elim (get_where (is_confirmable user client_id user_code) t) [
      | missing ↦ (not_found, t)
      | several ↦ (multiple_grants, t)
      | one g ↦ decide action g t
    ]

-- What a poll is answered with; `proceeds` goes on with oauthlib's `create_token_response`.
pub data PollAnswer : Type 0 where
  device_not_found authorization_pending_error access_denied expired_token internal_error :
      PollAnswer
  proceeds : DeviceGrant → PollAnswer

abbrev pub poll_answer : DeviceGrant → Status → PollAnswer
poll_answer g authorization_pending = authorization_pending_error
poll_answer g denied = access_denied
poll_answer g expired = expired_token
poll_answer g authorized = proceeds g
poll_answer g (other_status s) = internal_error

abbrev pub find_device : String → Devices → Option DeviceGrant
find_device device_code t = find? (λ g. str_eq g.device_code device_code) t.grants

-- `TokenView.device_flow_token_response`, up to the token response.
unfoldable pub device_flow_token_response : String → Devices → PollAnswer
device_flow_token_response device_code t = elim (find_device device_code t) [
  | none ↦ device_not_found
  | some g ↦ poll_answer g g.status
]

-- `set_oauthlib_user_to_device_request_user`: the user and the scopes of the token; none if there is no
-- such grant, which raises DoesNotExist.
unfoldable pub set_oauthlib_user_to_device_request_user :
    String → Devices → Option (Option ℕ × List String)
set_oauthlib_user_to_device_request_user device_code t = elim (find_device device_code t) [
  | none ↦ none
  | some g ↦ some (g.user, if str_eq g.scope "" then [] else split_words g.scope)
]
