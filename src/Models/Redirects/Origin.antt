-- ===== src/Models/Redirects/Origin.antt =====
-- What an origin that is allowed has in common with a listed one.
use django_oauth_toolkit.Prelude.{
  String, ◌≡◌, refl, inl, inr, Bool, true, false, not, ◌&&◌, List, [], ◌∷◌, arith, if-cases, elem,
  any,
}
use text.Mathlib.TextPositions.{eq_refl}
use django_oauth_toolkit.Codes.{codes, same, same_iff}
use django_oauth_toolkit.Url.{Split}
use django_oauth_toolkit.Settings.{Env, ok, >>=-eq-ok}
use django_oauth_toolkit.Models.Redirects.{split, origin_listed, is_origin_allowed}

-- The origin has an allowed scheme, and the scheme and netloc of a listed origin.
pub record IsListed (env : Env) (origin : String) (origins : List String) : Type 0 where
  pub parts : Split
  pub parsed : split env origin ≡ ok parts
  pub allowed_scheme : any (λ s. same parts.scheme (codes s)) env.settings.allowed_schemes ≡ true
  pub listed : String
  pub member : elem listed origins ≡ true
  pub listed_parts : Split
  pub listed_parsed : split env listed ≡ ok listed_parts
  pub scheme : listed_parts.scheme ≡ parts.scheme
  pub netloc : listed_parts.netloc ≡ parts.netloc

both_true : (a b : Bool) → (a && b) ≡ true → (a ≡ true) × (b ≡ true)
both_true true b h = (refl, h)
both_true false b h = cc

module _ (env : Env) (origin : String) (u : Split) (parsed : split env origin ≡ ok u)
    (scheme_ok : any (λ s. same u.scheme (codes s)) env.settings.allowed_schemes ≡ true) where
  origin_listed-IsListed :
      (origins : List String) → origin_listed env u origins ≡ ok true → IsListed env origin origins
  unfolding origin_listed
  origin_listed-IsListed [] h = cc
  origin_listed-IsListed (o ∷ origins) h =
      let (a, e, k) = >>=-eq-ok (split env o) _ h in
      elim (if-cases (same a.scheme u.scheme && same a.netloc u.netloc) _ _ k) [
        | inl (hit, l) ↦
            let (scheme, netloc) =
              both_true (same a.scheme u.scheme) (same a.netloc u.netloc) hit in
            record {
              parts = u;
              parsed = parsed;
              allowed_scheme = scheme_ok;
              listed = o;
              member = ground (arith, eq_refl o);
              listed_parts = a;
              listed_parsed = e;
              scheme = (same_iff a.scheme u.scheme).0 scheme;
              netloc = (same_iff a.netloc u.netloc).0 netloc;
            }
        | inr (miss, l) ↦
            let later = origin_listed-IsListed origins l in
            let member = later.member in
            record {
              parts = later.parts;
              parsed = later.parsed;
              allowed_scheme = later.allowed_scheme;
              listed = later.listed;
              member = ground (arith, member);
              listed_parts = later.listed_parts;
              listed_parsed = later.listed_parsed;
              scheme = later.scheme;
              netloc = later.netloc;
            }
      ]

not-not : (b : Bool) → not b ≡ false → b ≡ true
not-not true h = refl
not-not false h = cc

-- `is_origin_allowed` allows an origin only if its scheme is one of ALLOWED_SCHEMES, and one of the
-- listed origins has the same scheme and the same netloc.
pub is_origin_allowed_sound :
    (env : Env) (origin : String) (origins : List String)
    → is_origin_allowed env origin origins ≡ ok true
    → IsListed env origin origins
unfolding is_origin_allowed
is_origin_allowed_sound env origin origins h =
    let (u, e, k) = >>=-eq-ok (split env origin) _ h in
    elim (if-cases (not (any (λ s. same u.scheme (codes s)) env.settings.allowed_schemes)) _ _ k) [
      | inl (refused, l) ↦ cc
      | inr (allowed, l) ↦ origin_listed-IsListed env origin u e (not-not _ allowed) origins l
    ]
