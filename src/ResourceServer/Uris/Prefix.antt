-- ===== src/ResourceServer/Uris/Prefix.antt =====
-- For which URIs `validate_resource_as_url_prefix` lets a token through.
use django_oauth_toolkit.Prelude.{
  ℕ, String, ◌≡◌, refl, ◌∙◌, ap, inl, inr, Bool, true, false, ◌&&◌, Option, none, some, List, [],
  ◌∷◌, ◌++◌, arith, ◌==◌, ==_iff, if-cases, elem,
}
use text.Mathlib.TextPositions.{eq_refl}
use django_oauth_toolkit.Codes.{Codes, same, same_iff, starts}
use django_oauth_toolkit.Settings.{Env, ok, >>=-eq-ok}
use django_oauth_toolkit.ResourceServer.Uris.{
  UriParts, parse_and_validate_uri, same_port, same_origin, directory, covers, covers?, any_covers,
  validate_resource_as_url_prefix,
}

-- One of the audiences has the origin of the request, and its path is a whole-segment prefix of the
-- request's path.
pub record IsCovered (env : Env) (request_uri : String) (audiences : List String) : Type 0 where
  pub request : UriParts
  pub request_parsed : parse_and_validate_uri env request_uri ≡ ok (some request)
  pub audience_uri : String
  pub member : elem audience_uri audiences ≡ true
  pub audience : UriParts
  pub audience_parsed : parse_and_validate_uri env audience_uri ≡ ok (some audience)
  pub scheme : request.scheme ≡ audience.scheme
  pub hostname : request.hostname ≡ audience.hostname
  pub port : request.port ≡ audience.port
  pub below : Codes
  pub path : directory request.path ≡ directory audience.path ++ below

same_port-eq : (p q : Option ℕ) → same_port p q ≡ true → p ≡ q
same_port-eq none none e = refl
same_port-eq none (some q) e = cc
same_port-eq (some p) none e = cc
same_port-eq (some p) (some q) e = ap some ((==_iff p q).0 e)

and_true : (a b : Bool) → (a && b) ≡ true → (a ≡ true) × (b ≡ true)
and_true true b h = (refl, h)
and_true false b h = cc

starts-append : (s t : Codes) → starts s t ≡ true → (rest : Codes) × (s ≡ t ++ rest)
starts-append s [] h = (s, refl)
starts-append [] (b ∷ t) h = cc
starts-append (a ∷ s) (b ∷ t) h =
    let (first, more) = and_true (a == b) (starts s t) h in
    let (rest, e) = starts-append s t more in let head : a ≡ b = (==_iff a b).0 first in (rest, cc)

covers?-some :
    (p : UriParts) (o : Option UriParts)
    → covers? p o ≡ true
    → (q : UriParts) × (o ≡ some q) × (covers p q ≡ true)
covers?-some p none h = cc
covers?-some p (some q) h = (q, refl, h)

module _ (env : Env) (request_uri : String) (p : UriParts)
    (parsed : parse_and_validate_uri env request_uri ≡ ok (some p)) where
  any_covers-IsCovered :
      (audiences : List String)
      → any_covers env p audiences ≡ ok true
      → (c : String) × (elem c audiences ≡ true)
        × (q : UriParts) × (parse_and_validate_uri env c ≡ ok (some q))
        × (covers p q ≡ true)
  unfolding any_covers
  any_covers-IsCovered [] h = cc
  any_covers-IsCovered (c ∷ audiences) h =
      let (o, e, k) = >>=-eq-ok (parse_and_validate_uri env c) _ h in
      elim (if-cases (covers? p o) _ _ k) [
        | inl (hit, l) ↦
            let (q, some_q, covered) = covers?-some p o hit in
            (c, ground (arith, eq_refl c), q, e ∙ ap ok some_q, covered)
        | inr (miss, l) ↦
            let (d, member, q, f, hit) = any_covers-IsCovered audiences l in
            (d, ground (arith, member), q, f, hit)
      ]

  covered :
      (audiences : List String)
      → any_covers env p audiences ≡ ok true
      → IsCovered env request_uri audiences
  covered audiences h =
      let (c, member, q, e, hit) = any_covers-IsCovered audiences h in
      let (origin, prefix) = and_true (same_origin p q) _ hit in
      let (names, port) = and_true _ (same_port p.port q.port) origin in
      let (scheme, host) = and_true (same p.scheme q.scheme) (same p.hostname q.hostname) names in
      let (below, path) = starts-append (directory p.path) (directory q.path) prefix in
      record {
        request = p;
        request_parsed = parsed;
        audience_uri = c;
        member = member;
        audience = q;
        audience_parsed = e;
        scheme = (same_iff p.scheme q.scheme).0 scheme;
        hostname = (same_iff p.hostname q.hostname).0 host;
        port = same_port-eq p.port q.port port;
        below = below;
        path = path;
      }

parsed_request :
    (env : Env) (uri : String) (o : Option UriParts) (audiences : List String)
    → parse_and_validate_uri env uri ≡ ok o
    → elim o [ none ↦ ok false | some p ↦ any_covers env p audiences ] ≡ ok true
    → IsCovered env uri audiences
parsed_request env uri none audiences e h = cc
parsed_request env uri (some p) audiences e h = covered env uri p e audiences h

-- `validate_resource_as_url_prefix` lets a token that has audiences through for a URI only if one of the
-- audiences has the scheme, the host and the port of the URI, and its normalized path, with a slash at
-- its end, is a prefix of the URI's normalized path with a slash at its end.
pub validate_resource_as_url_prefix_sound :
    (env : Env) (request_uri audience_uri : String) (audiences : List String)
    → validate_resource_as_url_prefix env request_uri (audience_uri ∷ audiences) ≡ ok true
    → IsCovered env request_uri (audience_uri ∷ audiences)
unfolding validate_resource_as_url_prefix
validate_resource_as_url_prefix_sound env request_uri audience_uri audiences h =
    let (o, e, k) = >>=-eq-ok (parse_and_validate_uri env request_uri) _ h in
    parsed_request env request_uri o (audience_uri ∷ audiences) e k
