-- ===== src/Tests/Assertions.antt =====
-- The theorem on client assertions, on an example assertion and a cache that keeps everything.
use django_oauth_toolkit.Prelude.{
  String, ◌≡◌, ◌≢◌, refl, sym, ap, Bool, true, false, none, some, List, [], ◌∷◌, elem, eq_iff,
  arith,
}
use django_oauth_toolkit.AuthorizationServer.Assertions.{
  number, Claims, AssertionSettings, Cache, check_times, check_audience, remember, check_jti_replay,
  check_claims,
}
use django_oauth_toolkit.AuthorizationServer.Assertions.Replay.{
  IsCache, same, adds, IsTimely, assertion_once,
}

-- A cache that keeps its keys for ever.
abbrev put : String → List String → Bool → Bool × List String
put key state true = (false, state)
put key state false = (true, key ∷ state)

abbrev keeping : Cache
keeping = record {
  State = List String;
  add = λ key timeout now state. put key state (elem key state);
}

put-elem :
    (key other : String) (state : List String) (b : Bool)
    → elem key state ≡ true
    → elem key (put other state b).1 ≡ true
put-elem key other state true h = h
put-elem key other state false h = ground (arith, h)

put_added :
    (key : String) (state state' : List String) (b : Bool)
    → ◌≡◌ {A = Bool × List String} (put key state b) (true, state')
    → elem key state' ≡ true
put_added key state state' true h = cc
put_added key state state' false h =
    let e : key ∷ state ≡ state' = ap (λ x. x.1) h in rw (sym e) (rw ((eq_iff key key).1 refl) refl)

keeping-IsCache : IsCache keeping
keeping-IsCache = record {
  Held = λ state key until. elem key state ≡ true;
  added = λ key timeout now state state' h. put_added key state state' (elem key state) h;
  kept = λ key other timeout now until state h. put-elem key other state (elem other state) h;
  refuses = λ key timeout now until state h timely. rw h refl;
}

abbrev assertion_settings : AssertionSettings
assertion_settings = record {
  private_key_jwt_algs = "RS256" ∷ [];
  client_secret_jwt_algs = "HS256" ∷ [];
  leeway = 10;
  max_lifetime = 300;
}

abbrev claims : Claims
claims = record {
  exp = number 200;
  iat = number 90;
  aud = some "https://as.test/" ∷ [];
  jti = some "j1";
}

accepted_once :
    check_claims keeping (λ j. j) assertion_settings ("https://as.test" ∷ []) 100 claims []
    ≡ (none, "j1" ∷ [])
unfolding check_claims check_times check_audience check_jti_replay remember
accepted_once = refl

replay_example :
    IsTimely assertion_settings ("https://as.test" ∷ []) 100 claims
    × ((check_claims keeping
          (λ j. j)
          assertion_settings
          ("https://as.test" ∷ [])
          130
          claims
          ("j2" ∷ "j1" ∷ [])).0
        ≢ none)
replay_example =
    assertion_once keeping (λ j. j) assertion_settings ("https://as.test" ∷ []) 100 130 claims []
      ("j1" ∷ []) ("j2" ∷ "j1" ∷ []) keeping-IsCache accepted_once (adds "j2" 60 110 same)
