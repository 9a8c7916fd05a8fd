-- ===== src/Validator/Code.antt =====
-- Authorization codes in oauth2_provider/oauth2_validators.py: saving, validating and invalidating
-- them, and confirming their redirect URI. The `claims` column is not modelled.
pub mod Use
use Prim.Native.Char.{code as code_point}
use mathlib.Core.Option.{get_or}
use django_oauth_toolkit.Prelude.{
  ℕ, ◌+◌, String, Bool, true, false, not, ◌&&◌, Option, none, some, List, [], ◌∷◌, ◌++◌, ◌==◌,
  str_eq, if◌then◌else◌, points_to, filter, any,
}
use django_oauth_toolkit.Settings.{
  Env, Result, ok, err, does_not_exist, integrity_error, invalid_grant, invalid_request, ◌>>=◌,
}
use django_oauth_toolkit.Models.Rows.{Grant, is_expired}
use django_oauth_toolkit.Models.Database.{Database}
use django_oauth_toolkit.Validator.Request.{Request, resources, client_pk}
use django_oauth_toolkit.Validator.Resource.{find_grant}

-- `s.split(" ")`: the first part, and the others.
abbrev split_from : String → String × List String
split_from String.[] = ("", [])
split_from (String.◌∷◌ c s) =
    let (part, parts) = split_from s in
    if code_point c == b' ' then ("", part ∷ parts) else (String.◌∷◌ c part, parts)

abbrev pub split_spaces : String → List String
split_spaces s = let (part, parts) = split_from s in part ∷ parts

-- `" ".join(words)`
abbrev append_text : String → String → String
append_text String.[] t = t
append_text (String.◌∷◌ c s) t = String.◌∷◌ c (append_text s t)

abbrev pub join_spaces : List String → String
join_spaces [] = ""
join_spaces (w ∷ ws) =
    let rest = join_spaces ws in elim ws [ [] ↦ w | v ∷ vs ↦ append_text w (append_text " " rest) ]

abbrev pub is_plain : Option String → Bool
is_plain none = false
is_plain (some method) = str_eq method "plain"

-- The row that `_create_authorization_code` saves.
unfoldable pub new_grant : Env → Request → String → ℕ → ℕ → Database → Grant
new_grant env request code user application db = record {
  pk = db.next_pk;
  user = user;
  code = code;
  application = application;
  expires = env.now + env.settings.authorization_code_expire_seconds;
  redirect_uri = request.redirect_uri;
  scope = join_spaces request.scopes;
  code_challenge = get_or request.code_challenge "";
  code_challenge_method = get_or request.code_challenge_method "";
  nonce = get_or request.nonce "";
  resource = resources request.resource;
}

-- `code` is unique.
unfoldable pub insert_grant : Grant → Database → Result Database
insert_grant g db =
    if any (λ h. str_eq h.code g.code) db.grants
    then err integrity_error
    else ok (record db { grants = db.grants ++ g ∷ []; next_pk = db.next_pk + 1 })

-- Both foreign keys are not null.
unfoldable pub create_grant :
    Env → Request → String → Option ℕ → Option ℕ → Database → Result Database
create_grant env request code none application db = err integrity_error
create_grant env request code (some user) none db = err integrity_error
create_grant env request code (some user) (some application) db =
    insert_grant (new_grant env request code user application db) db

-- `_create_authorization_code`, called without an expiry, as `save_authorization_code` does.
unfoldable pub create_authorization_code : Env → Request → String → Database → Result Database
create_authorization_code env request code db =
    if is_plain request.code_challenge_method && env.settings.compliant_bcp_rfc9700_pkce_method
    then err invalid_request
    else create_grant env request code request.user (client_pk request) db

-- What a valid code leaves on the request.
abbrev pub grant_request : Grant → Request → Request
grant_request g request = record request {
  scopes = split_spaces g.scope;
  user = some g.user;
  nonce = if str_eq g.nonce "" then request.nonce else some g.nonce;
}

-- `validate_code`: the verdict, and the request that it leaves.
unfoldable pub validate_code : Env → String → Option ℕ → Request → Database → Bool × Request
unfolding is_expired
validate_code env code client request db = elim (find_grant db code client) [
  | none ↦ (false, request)
  | some g ↦
      if not (is_expired env.now (some g.expires))
      then (true, grant_request g request)
      else (false, request)
]

-- `confirm_redirect_uri`, with `redirect_uri_allowed` of the grant.
unfoldable pub confirm_redirect_uri : String → String → Option ℕ → Database → Result Bool
confirm_redirect_uri code redirect_uri client db = elim (find_grant db code client) [
  | none ↦ err does_not_exist
  | some g ↦ ok (str_eq redirect_uri g.redirect_uri)
]

abbrev pub is_code : String → Option ℕ → Grant → Bool
is_code code application g = str_eq g.code code && points_to application g.application

-- `invalidate_authorization_code`
unfoldable pub invalidate_authorization_code : String → Option ℕ → Database → Result Database
invalidate_authorization_code code application db =
    if any (is_code code application) db.grants
    then ok (record db { grants = filter (λ g. not (is_code code application g)) db.grants })
    else err invalid_grant
