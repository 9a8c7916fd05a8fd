-- ===== src/AuthorizationServer/Http.antt =====
-- Requests as Django hands them to a view, Python's dictionaries over texts, and the check of the
-- media type of oauth2_provider/core/views.py. A query or a form body is the list of its fields.
pub mod Keys
use django_oauth_toolkit.Prelude.{
  String, Bool, true, false, not, ◌&&◌, Option, none, some, List, [], ◌∷◌, map, str_eq,
  if◌then◌else◌, is_some, filter, find?,
}
use django_oauth_toolkit.Settings.{Settings}

abbrev pub Query : Type 0
Query = List (String × String)

pub data Method : Type 0 where
  get_method post_method other_method : Method

pub record HttpRequest : Type 0 where
  pub method : Method
  pub content_type : String
  pub get : Query
  pub post : Query

-- `QueryDict.getlist`
abbrev pub getlist : Query → String → List String
getlist [] key = []
getlist ((k, v) ∷ q) key = let rest = getlist q key in if str_eq k key then v ∷ rest else rest

abbrev pub last {ℓ} : {A : Type ℓ} → List A → Option A
last [] = none
last (a ∷ l) = let rest = last l in elim rest [ none ↦ some a | some b ↦ some b ]

-- `QueryDict.get`
abbrev pub get_last : Query → String → Option String
get_last q key = last (getlist q key)

-- The keys of a `QueryDict`, each once.
abbrev pub keys : Query → List String
keys [] = []
keys ((k, v) ∷ q) = k ∷ filter (λ j. not (str_eq k j)) (keys q)

-- Truth of a text that may be missing.
abbrev pub is_truthy : Option String → Bool
is_truthy none = false
is_truthy (some s) = not (str_eq s "")

-- `d[key] = value`
abbrev pub set_item {ℓ} : {A : Type ℓ} → String → A → List (String × A) → List (String × A)
set_item key value [] = (key, value) ∷ []
set_item key value ((k, v) ∷ d) =
    let rest = set_item key value d in if str_eq k key then (k, value) ∷ d else (k, v) ∷ rest

-- `d.get(key)`
abbrev pub get_item {ℓ} : {A : Type ℓ} → String → List (String × A) → Option A
get_item key [] = none
get_item key ((k, v) ∷ d) = if str_eq k key then some v else get_item key d

-- Whether `FormEncodedRequestMixin.form_encoded_body_error` rejects the request.
unfoldable pub form_encoded_body_error : Settings → HttpRequest → Bool
form_encoded_body_error settings request = elim request.method [
  | get_method ↦ false
  | other_method ↦ false
  | post_method ↦
      not (str_eq request.content_type "application/x-www-form-urlencoded")
      && settings.require_form_encoded_request_body
]
