-- ===== src/Validator/Resource/Narrow.antt =====
-- Which resources a token request ends up with.
use django_oauth_toolkit.Prelude.{
  String, ◌≡◌, ◌↔◌, refl, sym, ◌∙◌, ap, inl, inr, Bool, true, false, Option, none, some, List, [],
  ◌∷◌, str_eq, if◌then◌else◌, All, All-imp, All-any_self, elem, if-cases,
}
use text.Mathlib.TextPositions.{eq_refl}
use django_oauth_toolkit.Settings.{Env, Result, ok, err, invalid_target, >>=-eq-ok, ok-injective}
use mathlib.Core.Path.{subst}
use django_oauth_toolkit.Models.Rows.{RefreshToken}
use django_oauth_toolkit.Models.Database.{Database}
use django_oauth_toolkit.ResourceServer.Uris.{UriParts, parse_and_validate_uri}
use django_oauth_toolkit.Validator.Request.{Request, several, client_pk}
use django_oauth_toolkit.Validator.Resource.{
  validate_resource_uris, requested, narrow, find_grant, grant_resource, inherit, inherited,
  check_and_set_request_resource,
}

-- A resource indicator that RFC 8707 allows.
abbrev pub IsResource : Env → String → Type 0
IsResource env r = (parts : UriParts) × (parse_and_validate_uri env r ≡ ok (some parts))

-- The resources that were granted before: those of the authorization code, or of the refresh token.
abbrev pub granted : Request → Database → List String
granted request db =
    if str_eq request.grant_type "authorization_code"
    then grant_resource (find_grant db request.code (client_pk request))
    else if str_eq request.grant_type "refresh_token"
    then elim request.refresh_token_instance [ none ↦ [] | some instance ↦ instance.resource ]
    else []

-- The requested resources if there are any, or else the granted ones.
abbrev pub effective : List String → List String → List String
effective [] before = before
effective (r ∷ rs) before = r ∷ rs

-- All of the resources were granted before, if any were.
abbrev pub IsWithin : List String → List String → Type 0
IsWithin [] rs = Unit
IsWithin (g ∷ gs) rs = All (λ r. elem r (g ∷ gs) ≡ true) rs

parsed_first :
    (r : String) (o : Option UriParts) (rest : Result (Unit {0}))
    → elim o [ none ↦ err (invalid_target r) | some p ↦ rest ] ≡ ok tt
    → ((p : UriParts) × (o ≡ some p)) × (rest ≡ ok tt)
parsed_first r none rest h = cc
parsed_first r (some p) rest h = ((p, refl), h)

module _ (env : Env) where
  uris_valid : (rs : List String) → validate_resource_uris env rs ≡ ok tt → All (IsResource env) rs
  unfolding validate_resource_uris
  uris_valid [] h = tt
  uris_valid (r ∷ rs) h =
      let (o, e, f) = >>=-eq-ok (parse_and_validate_uri env r) _ h in
      let ((p, parsed), rest) = parsed_first r o (validate_resource_uris env rs) f in
      ((p, e ∙ ap ok parsed), uris_valid rs rest)

  valid_uris : (rs : List String) → All (IsResource env) rs → validate_resource_uris env rs ≡ ok tt
  unfolding validate_resource_uris
  valid_uris [] h = refl
  valid_uris (r ∷ rs) ((p, e), h) = rw e (valid_uris rs h)

narrow_within :
    (before rs : List String) → narrow before rs ≡ ok tt → All (λ r. elem r before ≡ true) rs
unfolding narrow
narrow_within before [] h = tt
narrow_within before (r ∷ rs) h = elim (if-cases (elem r before) _ _ h) [
  | inl (hit, k) ↦ (hit, narrow_within before rs k)
  | inr (miss, k) ↦ cc
]

within_narrow :
    (before rs : List String) → All (λ r. elem r before ≡ true) rs → narrow before rs ≡ ok tt
unfolding narrow
within_narrow before [] h = refl
within_narrow before (r ∷ rs) (hit, h) = rw hit (within_narrow before rs h)

elem_self : (rs : List String) → All (λ r. elem r rs ≡ true) rs
elem_self rs = All-imp _ _ (λ r h. h r (eq_refl r)) rs (All-any_self str_eq rs)

module _ (env : Env) where
  inherit-effective :
      (wanted before rs : List String)
      → validate_resource_uris env wanted ≡ ok tt
      → inherit env wanted before ≡ ok rs
      → (rs ≡ effective wanted before)
        × All (IsResource env) (effective wanted before)
        × IsWithin before (effective wanted before)
  unfolding inherit
  inherit-effective [] [] rs v h = (sym (ok-injective h), tt, tt)
  inherit-effective (r ∷ wanted) [] rs v h =
      (sym (ok-injective h), uris_valid env (r ∷ wanted) v, tt)
  inherit-effective [] (g ∷ gs) rs v h =
      let (u, e, f) = >>=-eq-ok (validate_resource_uris env (g ∷ gs)) _ h in
      (sym (ok-injective f), uris_valid env (g ∷ gs) e, elem_self (g ∷ gs))
  inherit-effective (r ∷ wanted) (g ∷ gs) rs v h =
      let (u, e, f) = >>=-eq-ok (narrow (g ∷ gs) (r ∷ wanted)) _ h in
      (sym (ok-injective f), uris_valid env (r ∷ wanted) v, narrow_within (g ∷ gs) (r ∷ wanted) e)

  effective-inherit :
      (wanted before : List String)
      → All (IsResource env) (effective wanted before)
      → IsWithin before (effective wanted before)
      → (validate_resource_uris env wanted ≡ ok tt)
        × (inherit env wanted before ≡ ok (effective wanted before))
  unfolding inherit
  effective-inherit [] [] v h = (valid_uris env [] tt, refl)
  effective-inherit (r ∷ wanted) [] v h = (valid_uris env (r ∷ wanted) v, refl)
  effective-inherit [] (g ∷ gs) v h = (valid_uris env [] tt, rw (valid_uris env (g ∷ gs) v) refl)
  effective-inherit (r ∷ wanted) (g ∷ gs) v h =
      (valid_uris env (r ∷ wanted) v, rw (within_narrow (g ∷ gs) (r ∷ wanted) h) refl)

  inherit-none_before : (wanted : List String) → inherit env wanted [] ≡ ok wanted
  unfolding inherit
  inherit-none_before [] = refl
  inherit-none_before (r ∷ wanted) = refl

  choice-inherit :
      (code refresh : Bool) (wanted before : List String) (o : Option RefreshToken)
      → (if code
          then inherit env wanted before
          else if refresh
          then elim o [ none ↦ ok wanted | some i ↦ inherit env wanted i.resource ]
          else ok wanted)
        ≡ inherit env wanted (
            if code
            then before
            else if refresh
            then elim o [ none ↦ [] | some i ↦ i.resource ]
            else [])
  choice-inherit true refresh wanted before o = refl
  choice-inherit false true wanted before none = sym (inherit-none_before wanted)
  choice-inherit false true wanted before (some i) = refl
  choice-inherit false false wanted before o = sym (inherit-none_before wanted)

  inherited-inherit :
      (request : Request) (db : Database) (wanted : List String)
      → inherited env request db wanted ≡ inherit env wanted (granted request db)
  unfolding inherited
  inherited-inherit request db wanted =
      choice-inherit (str_eq request.grant_type "authorization_code")
        (str_eq request.grant_type "refresh_token") wanted
        (grant_resource (find_grant db request.code (client_pk request)))
        request.refresh_token_instance

-- The outcome of the resource check, described without its steps.
pub record IsNarrowed (env : Env) (request : Request) (db : Database) (checked : Request)
    : Type 0 where
  pub outcome : List String
  pub chosen :
      outcome ≡ effective (requested request.resource request.decoded_body) (granted request db)
  pub valid : All (IsResource env) outcome
  pub within : IsWithin (granted request db) outcome
  pub result : checked ≡ record request { resource = several outcome }

module _ (env : Env) (request : Request) (db : Database) (checked : Request) where
  check_sound :
      check_and_set_request_resource env request db ≡ ok checked → IsNarrowed env request db checked
  unfolding check_and_set_request_resource
  check_sound h =
      let wanted = requested request.resource request.decoded_body in
      let (u, v, f) = >>=-eq-ok (validate_resource_uris env wanted) _ h in
      let (rs, g, k) = >>=-eq-ok (inherited env request db wanted) _ f in
      let (same, valid, within) =
        inherit-effective env wanted (granted request db) rs v
          (sym (inherited-inherit env request db wanted) ∙ g) in
      record {
        outcome = effective wanted (granted request db);
        chosen = refl;
        valid = valid;
        within = within;
        result = sym (ok-injective k) ∙ ap (λ l. record request { resource = several l }) same;
      }

  check_complete :
      IsNarrowed env request db checked → check_and_set_request_resource env request db ≡ ok checked
  unfolding check_and_set_request_resource
  check_complete n =
      let wanted = requested request.resource request.decoded_body in
      let before = granted request db in
      let (v, g) =
        effective-inherit env wanted before (subst (All (IsResource env)) n.chosen n.valid)
          (subst (IsWithin before) n.chosen n.within) in
      rw (v, inherited-inherit env request db wanted, g, n.result, n.chosen) refl

-- `_check_and_set_request_resource` returns a request exactly if that is the given one with its resource
-- set to the outcome, which is what was requested or, if that is nothing, what the authorization code
-- or the refresh token was granted; each resource of the outcome is a valid indicator, and was
-- granted before if anything was.
pub check_and_set_request_resource_iff :
    (env : Env) (request : Request) (db : Database) (checked : Request)
    → (check_and_set_request_resource env request db ≡ ok checked)
      ↔ IsNarrowed env request db checked
check_and_set_request_resource_iff env request db checked =
    (check_sound env request db checked, check_complete env request db checked)
