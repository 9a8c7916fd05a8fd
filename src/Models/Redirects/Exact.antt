-- ===== src/Models/Redirects/Exact.antt =====
-- What a redirect URI that is allowed has in common with a registered one.
use django_oauth_toolkit.Prelude.{
  ℕ, String, ◌≡◌, ◌⊎◌, refl, sym, ◌∙◌, ap, inl, inr, Bool, true, false, not, ◌&&◌, ◌||◌, Option,
  none, some, List, [], ◌∷◌, arith, Option-cases, ==_iff, if-cases, elem,
}
use text.Mathlib.TextPositions.{eq_refl}
use django_oauth_toolkit.Codes.{Codes, codes, same, same_iff, has}
use django_oauth_toolkit.Url.{Split, hostname, port, has_userinfo}
use django_oauth_toolkit.Settings.{Env, Result, ok, err, >>=-eq-ok, ok-injective}
use django_oauth_toolkit.Models.Redirects.{
  Reason, split, same_host, exact_host, host_reason, active_wildcard, is_loopback, port_of,
  same_port, port_ok, path_reason, rest_reason, split_reason, mismatch, turn, first_match,
  check_redirect_to_uri_allowed,
}

-- The parts in which the two URIs agree; the port is free for a loopback URI only.
pub record Agrees (env : Env) (registered requested : Codes) (a u : Split) : Type 0 where
  pub scheme : a.scheme ≡ u.scheme
  pub host : hostname a ≡ hostname u
  pub ports : (is_loopback env.settings.allow_localhost_loopback a ≡ true) ⊎ (port a ≡ port u)
  pub path : a.path ≡ u.path
  pub query_presence : has b'?' registered ≡ has b'?' requested
  pub query : a.query ≡ u.query

-- A registered URI that agrees with the requested one; neither has a fragment or credentials.
pub record IsAllowedBy (env : Env) (uri registered : String) : Type 0 where
  pub requested_parts : Split
  pub registered_parts : Split
  pub requested_split : split env uri ≡ ok requested_parts
  pub registered_split : split env registered ≡ ok registered_parts
  pub no_fragment : (has b'#' (codes uri) ≡ false) × (has b'#' (codes registered) ≡ false)
  pub no_userinfo : (has_userinfo requested_parts ≡ false) × (has_userinfo registered_parts ≡ false)
  pub agrees : Agrees env (codes registered) (codes uri) registered_parts requested_parts

same_host-eq : (g h : Option Codes) → same_host g h ≡ true → g ≡ h
same_host-eq none none e = refl
same_host-eq none (some h) e = cc
same_host-eq (some g) none e = cc
same_host-eq (some g) (some h) e = ap some ((same_iff g h).0 e)

same_port-eq : (p q : Option ℕ) → same_port p q ≡ true → p ≡ q
same_port-eq none none e = refl
same_port-eq none (some q) e = cc
same_port-eq (some p) none e = cc
same_port-eq (some p) (some q) e = ap some ((==_iff p q).0 e)

not-false : (b : Bool) → not b ≡ false → b ≡ true
not-false true h = refl
not-false false h = cc

presence-eq : (p q : Bool) → (p && not q || not p && q) ≡ false → p ≡ q
presence-eq true true h = refl
presence-eq true false h = cc
presence-eq false true h = cc
presence-eq false false h = refl

port_of-ok : (u : Split) (p : Option ℕ) → port_of u ≡ ok p → port u ≡ some p
port_of-ok u p h = elim (Option-cases (port u)) [
  | inl bad ↦ cc (rw (bad, port_of) at h)
  | inr (q, e) ↦
      let h' = rw (e, port_of) at h in let same : q ≡ p = ok-injective h' in e ∙ ap some same
]

module _ (env : Env) (exact : env.settings.allow_uri_wildcards ≡ false)
    (registered requested : Codes) (a u : Split) where
  port_ok-eq :
      (loopback : Bool) → port_ok loopback a u ≡ ok true → (loopback ≡ true) ⊎ (port a ≡ port u)
  unfolding port_ok
  port_ok-eq true h = inl refl
  port_ok-eq false h =
      let (p, e, k) = >>=-eq-ok (port_of a) _ h in
      let (q, f, l) = >>=-eq-ok (port_of u) _ k in
      let same = same_port-eq p q (ok-injective l) in
      inr (port_of-ok a p e ∙ ap some same ∙ sym (port_of-ok u q f))

  path_reason-eq :
      path_reason registered a requested u ≡ none
      → (a.path ≡ u.path) × (has b'?' registered ≡ has b'?' requested) × (a.query ≡ u.query)
  unfolding path_reason
  path_reason-eq h = elim (if-cases (not (same a.path u.path)) _ _ h) [
    | inl (differs, k) ↦ cc
    | inr (path, k) ↦
        elim (if-cases
          (has b'?' registered && not (has b'?' requested)
            || not (has b'?' registered) && has b'?' requested)
          _ _ k) [
            | inl (differs, l) ↦ cc
            | inr (presence, l) ↦ elim (if-cases (not (same a.query u.query)) _ _ l) [
              | inl (differs, m) ↦ cc
              | inr (query, m) ↦ (
                (same_iff a.path u.path).0 (not-false _ path),
                presence-eq _ _ presence,
                (same_iff a.query u.query).0 (not-false _ query),
              )
            ]
          ]
  ]

  exact_host-eq : (g h : Option Codes) → exact_host g h ≡ none → g ≡ h
  exact_host-eq g h e = elim (if-cases (same_host g h) _ _ e) [
    | inl (hit, k) ↦ same_host-eq g h hit
    | inr (miss, k) ↦ cc
  ]

  rest_reason-Agrees :
      (o : Option Reason)
      → host_reason
          (active_wildcard env.settings.allow_uri_wildcards (hostname a))
          (hostname a)
          (hostname u)
        ≡ o
      → a.scheme ≡ u.scheme
      → rest_reason env registered a requested u o ≡ ok none
      → Agrees env registered requested a u
  unfolding rest_reason
  rest_reason-Agrees (some reason) e scheme h = cc
  rest_reason-Agrees none e scheme h =
      let (good, f, k) =
        >>=-eq-ok (port_ok (is_loopback env.settings.allow_localhost_loopback a) a u) _ h in
      elim (if-cases good _ _ (ok-injective k)) [
        | inr (bad, l) ↦ cc
        | inl (yes_good, l) ↦
            let (path, presence, query) = path_reason-eq l in
            record {
              scheme = scheme;
              host = exact_host-eq (hostname a) (hostname u) (
                  sym (
                    ap (λ b. host_reason (active_wildcard b (hostname a)) (hostname a) (hostname u))
                      exact)
                  ∙ e);
              ports =
                  port_ok-eq (is_loopback env.settings.allow_localhost_loopback a)
                    (f ∙ ap ok yes_good);
              path = path;
              query_presence = presence;
              query = query;
            }
      ]

  split_reason-Agrees :
      split_reason env registered a requested u ≡ ok none
      → (has_userinfo a ≡ false) × Agrees env registered requested a u
  unfolding split_reason
  split_reason-Agrees h = elim (if-cases (has_userinfo a) _ _ h) [
    | inl (bad, k) ↦ cc
    | inr (clean, k) ↦ elim (if-cases (not (same a.scheme u.scheme)) _ _ k) [
      | inl (bad, l) ↦ cc
      | inr (scheme, l) ↦
          (clean, rest_reason-Agrees _ refl ((same_iff a.scheme u.scheme).0 (not-false _ scheme)) l)
    ]
  ]

module _ (env : Env) (exact : env.settings.allow_uri_wildcards ≡ false) (uri : String)
    (u : Split) where
  mismatch-IsAllowedBy :
      (registered : String)
      → split env uri ≡ ok u
      → has b'#' (codes uri) ≡ false
      → has_userinfo u ≡ false
      → mismatch env registered (codes uri) u ≡ ok none
      → IsAllowedBy env uri registered
  unfolding mismatch
  mismatch-IsAllowedBy registered parts no_fragment clean h =
      elim (if-cases (has b'#' (codes registered)) _ _ h) [
        | inl (bad, k) ↦ cc
        | inr (plain, k) ↦
            let (a, e, l) = >>=-eq-ok (split env registered) _ k in
            let (clean', agrees) =
              split_reason-Agrees env exact (codes registered) (codes uri) a u l in
            record {
              requested_parts = u;
              registered_parts = a;
              requested_split = parts;
              registered_split = e;
              no_fragment = (no_fragment, plain);
              no_userinfo = (clean, clean');
              agrees = agrees;
            }
      ]

  turn-cases :
      (registered : String) (o : Option Reason)
      (rest : Result (Bool × List (Option String × Reason)))
      (reasons : List (Option String × Reason))
      → turn registered o rest ≡ ok (true, reasons)
      → (o ≡ none) ⊎ ((more : List (Option String × Reason)) × (rest ≡ ok (true, more)))
  turn-cases registered none rest reasons h = inl refl
  turn-cases registered (some reason) (err e) reasons h = cc
  turn-cases registered (some reason) (ok (true, more)) reasons h = inr (more, refl)
  turn-cases registered (some reason) (ok (false, more)) reasons h = cc

  first_match-hit :
      (uris : List String) (reasons : List (Option String × Reason))
      → first_match env uris (codes uri) u ≡ ok (true, reasons)
      → (c : String) × (elem c uris ≡ true) × (mismatch env c (codes uri) u ≡ ok none)
  unfolding first_match
  first_match-hit [] reasons h = cc
  first_match-hit (c ∷ uris) reasons h =
      let (o, e, k) = >>=-eq-ok (mismatch env c (codes uri) u) _ h in
      elim (turn-cases c o (first_match env uris (codes uri) u) reasons k) [
        | inl none_found ↦ (c, ground (arith, eq_refl c), e ∙ ap ok none_found)
        | inr (more, hit) ↦
            let (d, member, found) = first_match-hit uris more hit in
            (d, ground (arith, member), found)
      ]

-- Without wildcards, a redirect URI that `check_redirect_to_uri_allowed` allows agrees with one of the
-- registered ones in scheme, host, path, query and the presence of a query, and in the port unless
-- that is a loopback URI; and neither of the two has a fragment or credentials.
pub check_redirect_to_uri_allowed_exact :
    (env : Env) (uri : String) (uris : List String) (reasons : List (Option String × Reason))
    → env.settings.allow_uri_wildcards ≡ false
    → check_redirect_to_uri_allowed env uri uris ≡ ok (true, reasons)
    → (registered : String) × (elem registered uris ≡ true) × IsAllowedBy env uri registered
unfolding check_redirect_to_uri_allowed
check_redirect_to_uri_allowed_exact env uri uris reasons exact h =
    let (u, e, k) = >>=-eq-ok (split env uri) _ h in
    elim (if-cases (has b'#' (codes uri)) _ _ k) [
      | inl (bad, l) ↦ cc
      | inr (plain, l) ↦ elim (if-cases (has_userinfo u) _ _ l) [
        | inl (bad, m) ↦ cc
        | inr (clean, m) ↦
            let (c, member, found) = first_match-hit env exact uri u uris reasons m in
            (c, member, mismatch-IsAllowedBy env exact uri u c e plain clean found)
      ]
    ]
