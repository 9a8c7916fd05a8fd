-- ===== src/AuthorizationServer/Assertions/Replay.antt =====
-- An assertion is accepted once, and not for longer than the settings allow.
use mathlib.Core.Path.{subst}
use django_oauth_toolkit.Prelude.{
  ℕ, suc, ◌+◌, ◌-◌, ◌<◌, ◌≤◌, String, ◌≡◌, ◌≢◌, refl, sym, ◌∙◌, ap, inl, inr, Bool, true, false,
  Option, none, some, List, arith, Bool-cases, Option-cases, ltb, leb, str_eq, if◌then◌else◌, any,
}
use django_oauth_toolkit.AuthorizationServer.Assertions.{
  Failure, replayed, NumericClaim, number, not_there, not_number, Claims, AssertionSettings, Cache,
  check_exp, check_iat, and_then, check_times, is_accepted, check_audience, remember,
  check_jti_replay, exp_or_zero, check_claims,
}

-- What Django documents of `cache.add`: a key that was added is held for its time, through every other
-- `add`, and cannot be added while it is held.
pub record IsCache (cache : Cache) : Type 1 where
  pub Held : cache.State → String → ℕ → Type 0
  pub added :
      (key : String) (timeout now : ℕ) (state state' : cache.State)
      → cache.add key timeout now state ≡ (true, state')
      → Held state' key (now + timeout)
  pub kept :
      (key other : String) (timeout now until : ℕ) (state : cache.State)
      → Held state key until
      → Held (cache.add other timeout now state).1 key until
  pub refuses :
      (key : String) (timeout now until : ℕ) (state : cache.State)
      → Held state key until
      → now < until
      → (cache.add key timeout now state).0 ≡ false

fresh_add :
    {A : Type 0} (o : Bool × A) (a : A)
    → ◌≡◌ {A = Option Failure × A} (if o.0 then none else some replayed, o.1) (none, a)
    → o ≡ (true, a)
fresh_add (true, b) a h = cc
fresh_add (false, b) a h = cc

module _ (cache : Cache) (law : IsCache cache) (s : AssertionSettings) (key : String) where
  remember-Held :
      (now exp : ℕ) (state state' : cache.State)
      → remember cache s key now exp state ≡ (none, state')
      → (now < exp + s.leeway) × law.Held state' key (suc (exp + s.leeway))
  unfolding remember
  remember-Held now exp state state' h = elim (Bool-cases (leb (exp + s.leeway) now)) [
    | inl late ↦ cc (rw (remember, late) at h)
    | inr timely ↦
        let before : now < exp + s.leeway = ground arith in
        let end : now + suc (exp + s.leeway - now) ≡ suc (exp + s.leeway) = omega arith in
        let is =
          fresh_add (cache.add key (suc (exp + s.leeway - now)) now state) state'
            (rw (remember, timely) at h) in
        (
          before,
          subst (law.Held state' key) end
              (law.added key (suc (exp + s.leeway - now)) now state state' is),
        )
  ]

  remember-refused :
      (now exp : ℕ) (state : cache.State)
      → law.Held state key (suc (exp + s.leeway))
      → (remember cache s key now exp state).0 ≢ none
  unfolding remember
  remember-refused now exp state held = λ h. elim (Bool-cases (leb (exp + s.leeway) now)) [
    | inl late ↦ cc (rw (remember, late) at h)
    | inr timely ↦
        let before : now < suc (exp + s.leeway) = ground arith in
        let stale =
          law.refuses key (suc (exp + s.leeway - now)) now (suc (exp + s.leeway)) state held
            before in
        cc (rw (remember, timely, stale) at h)
  ]

-- The states of a cache after any number of other keys were added, at any times.
pub data Later (cache : Cache) (state : cache.State) : cache.State → Type 0 where
  same : Later cache state state
  adds :
      (key : String) (timeout now : ℕ) {state' : cache.State}
      → Later cache state state'
      → Later cache state (cache.add key timeout now state').1

Later-Held :
    (cache : Cache) (law : IsCache cache) (key : String) (until : ℕ) (state : cache.State)
    {state' : cache.State}
    → Later cache state state'
    → law.Held state key until
    → law.Held state' key until
Later-Held cache law key until state same held = held
Later-Held cache law key until state (adds other timeout now {state' = state'} l) held =
    law.kept key other timeout now until state' (Later-Held cache law key until state l held)

-- What accepted claims are.
pub record IsTimely (s : AssertionSettings) (accepted : List String) (now : ℕ) (claims : Claims)
    : Type 0 where
  pub exp : ℕ
  pub claimed : claims.exp ≡ number exp
  pub running : now < exp + s.leeway
  pub bounded : exp ≤ now + s.max_lifetime + s.leeway
  pub issued : (iat : ℕ) → claims.iat ≡ number iat → iat ≤ now + s.leeway
  pub addressed : any (is_accepted accepted) claims.aud ≡ true
  pub jti : String
  pub identified : claims.jti ≡ some jti

and_then-none : (f g : Option Failure) → and_then f g ≡ none → (f ≡ none) × (g ≡ none)
and_then-none none g h = (refl, h)
and_then-none (some f) g h = cc

number_injective : {m n : ℕ} → number m ≡ number n → m ≡ n
number_injective h = cc

check_exp-get :
    (s : AssertionSettings) (now : ℕ) (claim : NumericClaim)
    → check_exp s now claim ≡ none
    → (exp : ℕ) × (claim ≡ number exp) × (exp ≤ now + s.max_lifetime + s.leeway)
check_exp-get s now not_there h = cc
check_exp-get s now not_number h = cc
check_exp-get s now (number exp) h = elim (Bool-cases (ltb (now + s.max_lifetime + s.leeway) exp)) [
  | inl far ↦ cc (rw far at h)
  | inr near ↦ (exp, refl, ground arith)
]

check_iat-get :
    (s : AssertionSettings) (now : ℕ) (claim : NumericClaim)
    → check_iat s now claim ≡ none
    → (iat : ℕ) → claim ≡ number iat
    → iat ≤ now + s.leeway
check_iat-get s now not_there h iat e = cc
check_iat-get s now not_number h iat e = cc
check_iat-get s now (number at) h iat e = elim (Bool-cases (ltb (now + s.leeway) at)) [
  | inl future ↦ cc (rw future at h)
  | inr past ↦ let eq : at ≡ iat = number_injective e in ground (arith, eq)
]

module _ (cache : Cache) (key : String → String) (s : AssertionSettings) (accepted : List String)
    (now : ℕ) (claims : Claims) (state : cache.State) where
  first_pass :
      (check_claims cache key s accepted now claims state).0 ≡ none
      → and_then (check_times s now claims) (check_audience accepted claims) ≡ none
  unfolding check_claims
  first_pass h =
      elim (Option-cases (and_then (check_times s now claims) (check_audience accepted claims))) [
        | inl e ↦ e
        | inr (f, e) ↦ cc (rw (check_claims, e) at h)
      ]

  last_pass :
      check_times s now claims ≡ none
      → check_audience accepted claims ≡ none
      → check_jti_replay cache key s now (exp_or_zero claims.exp) claims.jti state
        ≡ check_claims cache key s accepted now claims state
  unfolding check_claims
  last_pass e f = rw (check_claims, e, f) refl

audience-get :
    (accepted : List String) (claims : Claims)
    → check_audience accepted claims ≡ none
    → any (is_accepted accepted) claims.aud ≡ true
unfolding check_audience
audience-get accepted claims h = elim (Bool-cases (any (is_accepted accepted) claims.aud)) [
  | inl own ↦ own
  | inr other ↦ cc (rw (check_audience, other) at h)
]

reach :
    (cache : Cache) (key : String → String) (s : AssertionSettings) (accepted : List String)
    (now : ℕ) (claims : Claims) (state : cache.State) (exp : ℕ) (jti : String)
    → claims.exp ≡ number exp
    → claims.jti ≡ some jti
    → (check_claims cache key s accepted now claims state).0 ≡ none
    → (remember cache s (key jti) now exp state).0 ≡ none
unfolding check_jti_replay
reach cache key s accepted now claims state exp jti claimed identified h =
    let (times, audience) =
      and_then-none (check_times s now claims) (check_audience accepted claims)
        (first_pass cache key s accepted now claims state h) in
    let rest : (check_jti_replay cache key s now exp claims.jti state).0 ≡ none =
      rw (ap exp_or_zero (sym claimed))
        (ap (λ x. x.0) (last_pass cache key s accepted now claims state times audience))
      ∙ h in
    elim (Bool-cases (str_eq jti "")) [
      | inl empty ↦ cc (rw (check_jti_replay, identified, empty) at rest)
      | inr given ↦ rw (check_jti_replay, identified, given) at rest
    ]

-- Claims pass only if they are timely, and then their identifier is held until they expire.
check_claims-get :
    (cache : Cache) (law : IsCache cache) (key : String → String) (s : AssertionSettings)
    (accepted : List String) (now : ℕ) (claims : Claims) (state state' : cache.State)
    → check_claims cache key s accepted now claims state ≡ (none, state')
    → (i : IsTimely s accepted now claims) × law.Held state' (key i.jti) (suc (i.exp + s.leeway))
unfolding check_claims check_times check_audience check_jti_replay
check_claims-get cache law key s accepted now claims state state' h =
    let (times, audience) =
      and_then-none (check_times s now claims) (check_audience accepted claims)
        (first_pass cache key s accepted now claims state (ap (λ x. x.0) h)) in
    let (exps, iats) =
      and_then-none (check_exp s now claims.exp) (check_iat s now claims.iat) times in
    let (exp, claimed, bounded) = check_exp-get s now claims.exp exps in
    let addressed = audience-get accepted claims audience in
    let rest : check_jti_replay cache key s now exp claims.jti state ≡ (none, state') =
      rw (ap exp_or_zero (sym claimed))
        (last_pass cache key s accepted now claims state times audience)
      ∙ h in
    elim (Option-cases claims.jti) [
      | inl missing ↦ cc (rw (check_jti_replay, missing) at rest)
      | inr (jti, e) ↦ elim (Bool-cases (str_eq jti "")) [
        | inl empty ↦ cc (rw (check_jti_replay, e, empty) at rest)
        | inr given ↦
            let (running, held) =
              remember-Held cache law s (key jti) now exp state state'
                (rw (check_jti_replay, e, given) at rest) in
            (
              record {
                exp = exp;
                claimed = claimed;
                running = running;
                bounded = bounded;
                issued = check_iat-get s now claims.iat iats;
                addressed = addressed;
                jti = jti;
                identified = e;
              },
              held,
            )
      ]
    ]

-- An assertion that was accepted is never accepted again, whatever other assertions come in between.
pub assertion_once :
    (cache : Cache) (key : String → String) (s : AssertionSettings) (accepted : List String)
    (now later : ℕ) (claims : Claims) (state state' state'' : cache.State)
    → IsCache cache
    → check_claims cache key s accepted now claims state ≡ (none, state')
    → Later cache state' state''
    → IsTimely s accepted now claims
      × ((check_claims cache key s accepted later claims state'').0 ≢ none)
assertion_once cache key s accepted now later claims state state' state'' law h l =
    let (i, held) = check_claims-get cache law key s accepted now claims state state' h in
    let held' = Later-Held cache law (key i.jti) (suc (i.exp + s.leeway)) state' l held in
    (
      i,
      λ again. remember-refused cache law s (key i.jti) later i.exp state'' held' (
          reach cache key s accepted later claims state'' i.exp i.jti i.claimed i.identified again),
    )
