-- ===== src/AuthorizationServer/Device/Verdicts.antt =====
-- What a device can rely on when it polls: refusals and acceptances are final.
use django_oauth_toolkit.Prelude.{
  String, ◌⊎◌, inl, inr, ◌≡◌, ◌≢◌, refl, sym, ◌∙◌, ap, Bool, true, false, some, Option-cases,
}
use django_oauth_toolkit.AuthorizationServer.Device.{
  Status, authorized, authorization_pending, expired, denied, other_status, DeviceGrant, Devices,
  is_pending, PollAnswer, device_not_found, access_denied, expired_token, proceeds, poll_answer,
  find_device, device_flow_token_response,
}
use django_oauth_toolkit.AuthorizationServer.Device.Steps.{
  Event, Move, stays, expires, claims, accepts, denies, IsDevices,
}
use django_oauth_toolkit.AuthorizationServer.Device.Runs.{Run, here, then, Step-IsMoved}

-- A property of a grant that moves keep holds of it after any run.
Run-keeps {ℓ} :
    (P : DeviceGrant → Type ℓ)
    → ((e : Event) (g g' : DeviceGrant) → Move e g g' → P g → P g')
    → (code : String) {t t' : Devices} → Run t t'
    → IsDevices t
    → (g : DeviceGrant) → find_device code t ≡ some g
    → P g
    → (g' : DeviceGrant) × (find_device code t' ≡ some g') × P g'
Run-keeps P keep code here d g found p = (g, found, p)
Run-keeps P keep code (then s r) d g found p =
    let m = Step-IsMoved s d in
    let (g', found', move) = m.moves code g found in
    Run-keeps P keep code r m.devices g' found' (keep _ g g' move p)

pub Run-IsDevices : {t t' : Devices} → Run t t' → IsDevices t → IsDevices t'
Run-IsDevices here d = d
Run-IsDevices (then s r) d = Run-IsDevices r (Step-IsMoved s d).devices

-- Refused for good.
abbrev is_over : Status → Bool
is_over expired = true
is_over denied = true
is_over authorized = false
is_over authorization_pending = false
is_over (other_status s) = false

IsOver : DeviceGrant → Type 0
IsOver g = is_over g.status ≡ true

over-pending : {A : Type 0} (s : Status) → is_over s ≡ true → is_pending s ≡ true → A
over-pending expired o p = cc
over-pending denied o p = cc
over-pending authorized o p = cc
over-pending authorization_pending o p = cc
over-pending (other_status s) o p = cc

Move-IsOver : {e : Event} {g g' : DeviceGrant} → Move e g g' → IsOver g → IsOver g'
unfolding IsOver
Move-IsOver (stays e g) o = o
Move-IsOver (expires g now u c q l) o = refl
Move-IsOver (claims g now u c q l p) o = o
Move-IsOver (accepts g u i c q k p h) o = over-pending g.status o p
Move-IsOver (denies g u i c q k p h) o = refl

-- Authorized once, a grant keeps its user until it expires.
IsSettled : DeviceGrant → DeviceGrant → Type 0
IsSettled g g' = (g' ≡ g) ⊎ (g'.status ≡ expired)

settled_pending :
    {A : Type 0} (g g' : DeviceGrant)
    → g.status ≡ authorized
    → (g' ≡ g) ⊎ (g'.status ≡ expired)
    → is_pending g'.status ≡ true
    → A
settled_pending g g' a (inl same) p =
    let s : g'.status ≡ authorized = ap (λ (x : DeviceGrant). x.status) same ∙ a in cc (rw s at p)
settled_pending g g' a (inr over) p = cc (rw over at p)

Move-IsSettled :
    (g : DeviceGrant)
    → g.status ≡ authorized
    → {e : Event} {h h' : DeviceGrant} → Move e h h'
    → IsSettled g h
    → IsSettled g h'
unfolding IsSettled
Move-IsSettled g a (stays e h) s = s
Move-IsSettled g a (expires h now u c q l) s = inr refl
Move-IsSettled g a (claims h now u c q l p) s = settled_pending g h a s p
Move-IsSettled g a (accepts h u i c q k p b) s = settled_pending g h a s p
Move-IsSettled g a (denies h u i c q k p b) s = settled_pending g h a s p

-- What a grant that was found is answered.
pub answer_found :
    (code : String) (t : Devices) (g : DeviceGrant)
    → find_device code t ≡ some g
    → device_flow_token_response code t ≡ poll_answer g g.status
unfolding device_flow_token_response
answer_found code t g found = rw (device_flow_token_response, found) refl

pub answer_get :
    (code : String) (t : Devices) (a : PollAnswer)
    → device_flow_token_response code t ≡ a
    → (a ≡ device_not_found)
      ⊎ ((g : DeviceGrant) × (find_device code t ≡ some g) × (poll_answer g g.status ≡ a))
unfolding device_flow_token_response
answer_get code t a h = elim (Option-cases (find_device code t)) [
  | inl e ↦ inl (sym (rw (device_flow_token_response, e) at h))
  | inr (g, e) ↦ inr (g, e, rw (device_flow_token_response, e) at h)
]

pub proceeds-status :
    (g h : DeviceGrant) (s : Status) → poll_answer g s ≡ proceeds h → (s ≡ authorized) × (h ≡ g)
proceeds-status g h authorized e = (refl, cc)
proceeds-status g h authorization_pending e = cc
proceeds-status g h expired e = cc
proceeds-status g h denied e = cc
proceeds-status g h (other_status s) e = cc

over-proceeds :
    {A : Type 0} (g h : DeviceGrant) (s : Status)
    → is_over s ≡ true
    → poll_answer g s ≡ proceeds h
    → A
over-proceeds g h expired o e = cc
over-proceeds g h denied o e = cc
over-proceeds g h authorized o e = cc
over-proceeds g h authorization_pending o e = cc
over-proceeds g h (other_status s) o e = cc

refused-status :
    (g : DeviceGrant) (s : Status)
    → (poll_answer g s ≡ access_denied) ⊎ (poll_answer g s ≡ expired_token)
    → is_over s ≡ true
refused-status g expired h = refl
refused-status g denied h = refl
refused-status g authorized h = elim h [ inl e ↦ cc | inr e ↦ cc ]
refused-status g authorization_pending h = elim h [ inl e ↦ cc | inr e ↦ cc ]
refused-status g (other_status s) h = elim h [ inl e ↦ cc | inr e ↦ cc ]

find_refused :
    (code : String) (t : Devices)
    → (device_flow_token_response code t ≡ access_denied)
      ⊎ (device_flow_token_response code t ≡ expired_token)
    → (g : DeviceGrant) × (find_device code t ≡ some g) × (is_over g.status ≡ true)
find_refused code t (inl h) = elim (answer_get code t access_denied h) [
  | inl e ↦ cc
  | inr (g, found, e) ↦ (g, found, refused-status g g.status (inl e))
]
find_refused code t (inr h) = elim (answer_get code t expired_token h) [
  | inl e ↦ cc
  | inr (g, found, e) ↦ (g, found, refused-status g g.status (inr e))
]

-- Once a poll is answered that access is denied or that the grant has expired, no later one passes the
-- checks, so that none gets a token.
pub refused_forever :
    (code : String) (t t' : Devices)
    → IsDevices t
    → Run t t'
    → (device_flow_token_response code t ≡ access_denied)
      ⊎ (device_flow_token_response code t ≡ expired_token)
    → (g : DeviceGrant) → device_flow_token_response code t' ≢ proceeds g
unfolding IsOver
refused_forever code t t' d r h g = λ later.
    let (x, found, over) = find_refused code t h in
    let (y, found', over') =
      Run-keeps IsOver (λ e a b m o. Move-IsOver m o) code r d x found over in
    over-proceeds y g y.status over' (sym (answer_found code t' y found') ∙ later)

-- Once a poll has passed the checks with a grant, every later poll passes them with that grant as it
-- was, its user, client and scope included, or is answered that the grant has expired.
pub authorized_settled :
    (code : String) (t t' : Devices) (g : DeviceGrant)
    → IsDevices t
    → Run t t'
    → device_flow_token_response code t ≡ proceeds g
    → (device_flow_token_response code t' ≡ proceeds g)
      ⊎ (device_flow_token_response code t' ≡ expired_token)
unfolding IsSettled
authorized_settled code t t' g d r h = elim (answer_get code t (proceeds g) h) [
  | inl e ↦ cc
  | inr (x, found, e) ↦
      let (a, same) = proceeds-status x g x.status e in
      let (y, found', settled) =
        Run-keeps (IsSettled x) (λ e j k m s. Move-IsSettled x a m s) code r d x found (inl refl) in
      let answer = answer_found code t' y found' in
      elim settled [
        | inl kept ↦ inl (
            answer
            ∙ ap (λ z. poll_answer z z.status) kept
            ∙ ap (poll_answer x) a
            ∙ ap proceeds (sym same))
        | inr over ↦ inr (answer ∙ ap (poll_answer y) over)
      ]
]
