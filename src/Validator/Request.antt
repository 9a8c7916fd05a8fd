-- ===== src/Validator/Request.antt =====
-- The fields of oauthlib's `Request` that oauth2_provider/oauth2_validators.py reads and writes, and
-- the token dictionary that oauthlib hands to `save_bearer_token`.
use django_oauth_toolkit.Prelude.{ℕ, String, Option, none, some, List, [], ◌∷◌}
use django_oauth_toolkit.Models.Rows.{Application, RefreshToken}

-- `request.resource` as oauthlib leaves it, or as the validator writes it.
pub data Resource : Type 0 where
  absent : Resource
  single : String → Resource
  several : List String → Resource

pub record Request : Type 0 where
  pub client : Option Application
  pub user : Option ℕ
  pub grant_type : String
  pub code : String
  pub scopes : List String
  pub refresh_token : String
  pub refresh_token_instance : Option RefreshToken
  pub resource : Resource
  pub decoded_body : List (String × String)
  pub redirect_uri : String
  pub code_challenge : Option String
  pub code_challenge_method : Option String
  pub nonce : Option String
  pub authorization : Option String
  pub client_id : Option String
  pub client_secret : Option String
  pub client_assertion : Option String
  pub client_assertion_type : Option String

pub record TokenDict : Type 0 where
  pub access_token : String
  pub refresh_token : Option String
  pub scope : Option String
  pub expires_in : Option ℕ
  pub id_token : Option String

-- `getattr(request, "resource", [])` once the resource is a list.
abbrev pub resources : Resource → List String
resources absent = []
resources (single r) = r ∷ []
resources (several rs) = rs

-- The primary key of `request.client`.
abbrev pub client_pk : Request → Option ℕ
client_pk request = elim request.client [ none ↦ none | some c ↦ some c.pk ]
