-- ===== src/Validator/Grants/Gates.antt =====
-- The RFC 9700 gates close the grants that they name.
use django_oauth_toolkit.Prelude.{String, ◌≡◌, ◌⊎◌, true, false, [], ◌∷◌, List}
use django_oauth_toolkit.Settings.{Settings}
use django_oauth_toolkit.Models.Rows.{
  Application, GrantType, authorization_code, implicit, openid_hybrid,
}
use django_oauth_toolkit.Validator.Grants.{same_grant}

-- A client registered for the grant type.
abbrev Registered : Application → GrantType → Type 0
Registered client g = same_grant client.authorization_grant_type g ≡ true

abbrev OneOf : String → List String → Type 0
OneOf s [] = ⊥
OneOf s (x ∷ l) = (s ≡ x) ⊎ OneOf s l

-- The response types that a client may use: each belongs to one grant.
abbrev pub MayRespond : Settings → String → Application → Type 0
MayRespond s response_type client =
    ((response_type ≡ "code") × Registered client authorization_code)
    ⊎ (OneOf response_type ("token" ∷ "id_token" ∷ "id_token token" ∷ [])
        × Registered client implicit
        × (s.compliant_bcp_rfc9700_implicit_grant ≡ false))
    ⊎ (OneOf response_type ("code id_token" ∷ "code token" ∷ "code id_token token" ∷ [])
        × Registered client openid_hybrid)
