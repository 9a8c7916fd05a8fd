-- ===== src/AuthorizationServer/Device/Accepted.antt =====
-- Who has accepted a device grant that passes the checks of a poll.
use django_oauth_toolkit.Prelude.{
  ℕ, String, ◌⊎◌, inl, inr, ◌≡◌, ◌≢◌, refl, sym, ◌∙◌, ap, true, some, some_injective, Option-cases,
}
use mathlib.Core.Path.{subst}
use django_oauth_toolkit.AuthorizationServer.Device.{
  Status, authorized, authorization_pending, expired, denied, other_status, DeviceGrant, Devices,
  is_pending, proceeds, poll_answer, find_device, device_flow_token_response,
}
use django_oauth_toolkit.AuthorizationServer.Device.Steps.{
  Event, started, entered, decided, Move, Appears, stays, expires, claims, accepts, denies,
  IsDevices,
}
use django_oauth_toolkit.AuthorizationServer.Device.Runs.{Step, Run, here, then, Step-IsMoved}
use django_oauth_toolkit.AuthorizationServer.Device.Verdicts.{
  answer_found, answer_get, proceeds-status, authorized_settled,
}

-- The decision that authorized a grant: a request in the run, by the user who had claimed the grant
-- while it was pending, with the action "accept" and the codes of the grant.
pub record IsAccepted (code : String) (t t' : Devices) (g : DeviceGrant) : Type 0 where
  pub user : ℕ
  pub before : Devices
  pub after : Devices
  pub earlier : Run t before
  pub decision : Step (decided user g.client_id g.user_code "accept") before after
  pub later : Run after t'
  pub waiting : DeviceGrant
  pub found_before : find_device code before ≡ some waiting
  pub pending : is_pending waiting.status ≡ true
  pub claimed : waiting.user ≡ some user
  pub found_after : find_device code after ≡ some g
  pub owner : g.user ≡ some user

-- A move that authorizes a grant is an acceptance.
record IsAcceptance (e : Event) (g g' : DeviceGrant) : Type 0 where
  pub user : ℕ
  pub is_event : e ≡ decided user g'.client_id g'.user_code "accept"
  pub pending : is_pending g.status ≡ true
  pub claimed : g.user ≡ some user
  pub owner : g'.user ≡ some user

pending-authorized : {A : Type 0} (s : Status) → is_pending s ≡ true → s ≡ authorized → A
pending-authorized s p a = cc (rw a at p)

Move-IsAcceptance :
    {e : Event} {g g' : DeviceGrant}
    → Move e g g'
    → g.status ≢ authorized
    → g'.status ≡ authorized
    → IsAcceptance e g g'
Move-IsAcceptance (stays e g) n a = absurd (n a)
Move-IsAcceptance (expires g now u c q l) n a = cc
Move-IsAcceptance (claims g now u c q l p) n a = absurd (n a)
Move-IsAcceptance (accepts g u i c q k p h) n a = record {
  user = u;
  is_event =
      ap (λ x. decided u x c "accept") (sym q) ∙ ap (λ x. decided u g.client_id x "accept") (sym k);
  pending = p;
  claimed = h;
  owner = h;
}
Move-IsAcceptance (denies g u i c q k p h) n a = cc

-- A poll passes the checks, or it does not.
poll-cases :
    (code : String) (t : Devices)
    → ((g : DeviceGrant) × (find_device code t ≡ some g) × (g.status ≡ authorized))
      ⊎ ((g : DeviceGrant) → find_device code t ≡ some g → g.status ≢ authorized)
poll-cases code t = elim (Option-cases (find_device code t)) [
  | inl e ↦ inr (λ g found. cc)
  | inr (g, e) ↦ elim (Status-cases g.status) [
    | inl a ↦ inl (g, e, a)
    | inr n ↦ inr (λ h found a. n (ap (λ (x : DeviceGrant). x.status) (same g h e found) ∙ a))
  ]
]
  where
    Status-cases : (s : Status) → (s ≡ authorized) ⊎ (s ≢ authorized)
    Status-cases authorized = inl refl
    Status-cases authorization_pending = inr (λ h. cc)
    Status-cases expired = inr (λ h. cc)
    Status-cases denied = inr (λ h. cc)
    Status-cases (other_status s) = inr (λ h. cc)

    same : (g h : DeviceGrant) → find_device code t ≡ some g → find_device code t ≡ some h → g ≡ h
    same g h e f = some_injective (sym e ∙ f)

-- A grant that one request authorizes was there before, and its user accepted it.
authorized_by :
    (code : String) {e : Event} {t t' : Devices} (s : Step e t t') (g : DeviceGrant)
    → IsDevices t
    → ((h : DeviceGrant) → find_device code t ≡ some h → h.status ≢ authorized)
    → find_device code t' ≡ some g
    → g.status ≡ authorized
    → (h : DeviceGrant) × (find_device code t ≡ some h) × IsAcceptance e h g
authorized_by code {e = e} {t = t} {t' = t'} s g d waits found a =
    let m = Step-IsMoved s d in
    elim (Option-cases (find_device code t)) [
      | inl missed ↦ appears_pending e g (m.appears code g missed found) a
      | inr (h, before) ↦
          let (g', after, move) = m.moves code h before in
          let same : g' ≡ g = some_injective (sym after ∙ found) in
          (
            h,
            before,
            subst (IsAcceptance e h) same (
                Move-IsAcceptance move (waits h before)
                  (ap (λ (x : DeviceGrant). x.status) same ∙ a)),
          )
    ]
  where
    appears_pending :
        {A : Type 0} (e : Event) (g : DeviceGrant) → Appears e g → g.status ≡ authorized → A
    appears_pending started g (p, u) a = pending-authorized g.status p a
    appears_pending (entered now user c) g h a = absurd h
    appears_pending (decided user i c act) g h a = absurd h

-- After it was accepted, a grant that passes the checks is the one that was accepted.
still :
    (code : String) (t t' : Devices) (h g : DeviceGrant)
    → IsDevices t
    → Run t t'
    → find_device code t ≡ some h
    → h.status ≡ authorized
    → device_flow_token_response code t' ≡ proceeds g
    → h ≡ g
still code t t' h g d r found a later =
    let now_proceeds : device_flow_token_response code t ≡ proceeds h =
      answer_found code t h found ∙ ap (poll_answer h) a in
    elim (authorized_settled code t t' h d r now_proceeds) [
      | inl kept ↦ proceeds-injective (sym kept ∙ later)
      | inr over ↦ cc (sym over ∙ later)
    ]
  where
    proceeds-injective : {x y : DeviceGrant} → proceeds x ≡ proceeds y → x ≡ y
    proceeds-injective e = cc

Run-IsAccepted :
    (code : String) {t t' : Devices} (r : Run t t') (g : DeviceGrant)
    → IsDevices t
    → ((h : DeviceGrant) → find_device code t ≡ some h → h.status ≢ authorized)
    → device_flow_token_response code t' ≡ proceeds g
    → IsAccepted code t t' g
Run-IsAccepted code (here {t = t}) g d waits final = elim (answer_get code t (proceeds g) final) [
  | inl e ↦ cc
  | inr (x, found, e) ↦ absurd (waits x found (proceeds-status x g x.status e).0)
]
Run-IsAccepted code (then {e = e} {s = t} {t = u} {u = t'} s r) g d waits final =
    let d' = (Step-IsMoved s d).devices in
    elim (poll-cases code u) [
      | inr still_waits ↦
          let later = Run-IsAccepted code r g d' still_waits final in
          record {
            user = later.user;
            before = later.before;
            after = later.after;
            earlier = then s later.earlier;
            decision = later.decision;
            later = later.later;
            waiting = later.waiting;
            found_before = later.found_before;
            pending = later.pending;
            claimed = later.claimed;
            found_after = later.found_after;
            owner = later.owner;
          }
      | inl (h, found, a) ↦
          let same : h ≡ g = still code u t' h g d' r found a final in
          let found_g : find_device code u ≡ some g = found ∙ ap some same in
          let a_g : g.status ≡ authorized = ap (λ (x : DeviceGrant). x.status) (sym same) ∙ a in
          let (w, before, accepted) = authorized_by code s g d waits found_g a_g in
          record {
            user = accepted.user;
            before = t;
            after = u;
            earlier = here;
            decision = subst (λ x. Step x t u) accepted.is_event s;
            later = r;
            waiting = w;
            found_before = before;
            pending = accepted.pending;
            claimed = accepted.claimed;
            found_after = found_g;
            owner = accepted.owner;
          }
    ]

-- If a poll does not pass the checks at first and passes them with a grant after some requests, then
-- one of these requests is the decision "accept" on the codes of that grant, by the user that it has,
-- who had claimed it while it was pending.
pub proceeds-IsAccepted :
    (code : String) (t t' : Devices) (g : DeviceGrant)
    → IsDevices t
    → Run t t'
    → ((h : DeviceGrant) → device_flow_token_response code t ≢ proceeds h)
    → device_flow_token_response code t' ≡ proceeds g
    → IsAccepted code t t' g
proceeds-IsAccepted code t t' g d r waits final =
    Run-IsAccepted code r g d
      (λ h found a. waits h (answer_found code t h found ∙ ap (poll_answer h) a)) final
