-- ===== src/AuthorizationServer/Device/Runs.antt =====
-- Runs of the device flow: what holds after any sequence of requests.
use mathlib.Core.Path.{subst}
use django_oauth_toolkit.Prelude.{
  eq_iff, find?-append_last, ℕ, String, ◌+◌, ◌⊎◌, inl, inr, ◌≡◌, refl, sym, Bool, true, ◌&&◌, some,
  [], ◌∷◌, ◌++◌, arith, Bool-cases, ◌==◌, str_eq, leb, points_to, points_to-eq, find?, find?-append,
  any, All-imp, All-append_one, append_one-IsKeyed,
}
use django_oauth_toolkit.Settings.{ok, ok-injective}
use django_oauth_toolkit.AuthorizationServer.Device.{
  DeviceGrant, Devices, is_pending, is_marked_expired, device_is_expired, DeviceRequest,
  DeviceCodeResponse, new_device_grant, create_device_grant, Found, missing, several, one,
  get_where, submit_found, submit_user_code, is_confirmable, decide, confirm_device,
}
use django_oauth_toolkit.AuthorizationServer.Device.Steps.{
  Event, started, entered, decided, Appears, stays, expires, claims, accepts, denies, IsDevices,
  IsMoved, unmoved, updated, get_where-found,
}

-- A request to one of the views that change device grants, at any time, by any user.
pub data Step : Event → Devices → Devices → Type 0 where
  creates :
      (now : ℕ) (request : DeviceRequest) (response : DeviceCodeResponse) {t t' : Devices}
      → create_device_grant now request response t ≡ ok t'
      → Step started t t'
  submits :
      (now user : ℕ) (user_code : String) (t : Devices)
      → Step (entered now user user_code) t (submit_user_code now user user_code t).1
  confirms :
      (user : ℕ) (client_id user_code action : String) (t : Devices)
      → Step
          (decided user client_id user_code action)
          t
          (confirm_device user client_id user_code action t).1

pub data Run : Devices → Devices → Type 0 where
  here : {t : Devices} → Run t t
  then : {e : Event} {s t u : Devices} → Step e s t → Run t u → Run s u

create-IsMoved :
    (now : ℕ) (request : DeviceRequest) (response : DeviceCodeResponse) (t t' : Devices)
    → create_device_grant now request response t ≡ ok t'
    → IsDevices t
    → IsMoved started t t'
unfolding create_device_grant
create-IsMoved now request response t t' h d =
    elim (Bool-cases (any (λ g. str_eq g.device_code response.device_code) t.grants)) [
      | inl taken ↦ cc (rw (create_device_grant, taken) at h)
      | inr free ↦
          let g = new_device_grant now request response t in
          let after : record { grants = t.grants ++ g ∷ []; next_pk = t.next_pk + 1 } ≡ t' =
            ok-injective (rw (create_device_grant, free) at h) in
          rw (sym after) (record {
            devices = record {
              keyed = append_one-IsKeyed _ t.grants g t.next_pk d.fresh refl d.keyed;
              fresh =
                  All-append_one _ t.grants g (All-imp _ _ (λ x b. omega arith) t.grants d.fresh)
                    (omega arith);
              owned = All-append_one _ t.grants g d.owned tt;
            };
            moves = λ code x found. (x, find?-append _ t.grants (g ∷ []) x found, stays started x);
            appears = λ code x missed found.
                subst (Appears started) (find?-append_last _ t.grants g x missed found)
                  (refl, refl);
          })
    ]

submit_found-IsMoved :
    (now user : ℕ) (user_code : String) (g : DeviceGrant) (t : Devices)
    → IsDevices t
    → find? (λ y. y.pk == g.pk) t.grants ≡ some g
    → g.user_code ≡ user_code
    → IsMoved (entered now user user_code) t (submit_found now user g t).1
unfolding submit_found device_is_expired
submit_found-IsMoved now user user_code g t d own named =
    let e = entered now user user_code in
    elim (Bool-cases (is_marked_expired g.status)) [
      | inl over ↦ rw (submit_found, device_is_expired, over) (unmoved e t d)
      | inr running ↦ elim (Bool-cases (leb g.expires now)) [
        | inl late ↦
            rw (submit_found, device_is_expired, running, late)
              (updated e t d g own _ (expires g now user user_code named (ground arith)) (λ x. refl)
                (λ x. refl))
        | inr timely ↦ elim (Bool-cases (is_pending g.status)) [
          | inl pending ↦
              rw (submit_found, device_is_expired, running, timely, pending)
                (updated e t d g own _ (claims g now user user_code named (ground arith) pending)
                  (λ x. refl) (λ x. refl))
          | inr used ↦ rw (submit_found, device_is_expired, running, timely, used) (unmoved e t d)
        ]
      ]
    ]

Found-cases : (f : Found) → (f ≡ missing) ⊎ (f ≡ several) ⊎ ((g : DeviceGrant) × (f ≡ one g))
Found-cases missing = inl refl
Found-cases several = inr (inl refl)
Found-cases (one g) = inr (inr (g, refl))

submit-IsMoved :
    (now user : ℕ) (user_code : String) (t : Devices)
    → IsDevices t
    → IsMoved (entered now user user_code) t (submit_user_code now user user_code t).1
unfolding submit_user_code
submit-IsMoved now user user_code t d =
    let e = entered now user user_code in
    elim (Found-cases (get_where (λ g. str_eq g.user_code user_code) t)) [
      | inl f ↦ rw (submit_user_code, f) (unmoved e t d)
      | inr (inl f) ↦ rw (submit_user_code, f) (unmoved e t d)
      | inr (inr (g, f)) ↦
          let (own, fits) = get_where-found _ t g d f in
          let named : g.user_code ≡ user_code = (eq_iff g.user_code user_code).0 fits in
          rw (submit_user_code, f) (submit_found-IsMoved now user user_code g t d own named)
    ]

decide-IsMoved :
    (user : ℕ) (client_id user_code action : String) (g : DeviceGrant) (t : Devices)
    → IsDevices t
    → find? (λ y. y.pk == g.pk) t.grants ≡ some g
    → g.client_id ≡ client_id
    → g.user_code ≡ user_code
    → is_pending g.status ≡ true
    → g.user ≡ some user
    → IsMoved (decided user client_id user_code action) t (decide action g t).1
unfolding decide
decide-IsMoved user client_id user_code action g t d own client code pending by_user =
    elim (Bool-cases (str_eq action "accept")) [
      | inl accepted ↦
          let says : action ≡ "accept" = (eq_iff action "accept").0 accepted in
          rw says (
            updated (decided user client_id user_code "accept") t d g own _
              (accepts g user client_id user_code client code pending by_user) (λ x. refl)
              (λ x. refl))
      | inr other ↦ elim (Bool-cases (str_eq action "deny")) [
        | inl refused ↦
            let says : action ≡ "deny" = (eq_iff action "deny").0 refused in
            rw says (
              updated (decided user client_id user_code "deny") t d g own _
                (denies g user client_id user_code client code pending by_user) (λ x. refl)
                (λ x. refl))
        | inr bad ↦ rw (decide, other, bad) (unmoved (decided user client_id user_code action) t d)
      ]
    ]

four_and :
    (a b c d : Bool) → (a && b && c && d) ≡ true → (a ≡ true) × (b ≡ true) × (c ≡ true) × (d ≡ true)
four_and a b c d h = ground arith

confirm-IsMoved :
    (user : ℕ) (client_id user_code action : String) (t : Devices)
    → IsDevices t
    → IsMoved
        (decided user client_id user_code action)
        t
        (confirm_device user client_id user_code action t).1
unfolding confirm_device
confirm-IsMoved user client_id user_code action t d =
    let e = decided user client_id user_code action in
    elim (Found-cases (get_where (is_confirmable user client_id user_code) t)) [
      | inl f ↦ rw (confirm_device, f) (unmoved e t d)
      | inr (inl f) ↦ rw (confirm_device, f) (unmoved e t d)
      | inr (inr (g, f)) ↦
          let (own, fits) = get_where-found _ t g d f in
          let (client, code, pending, by_user) =
            four_and (str_eq g.client_id client_id) (str_eq g.user_code user_code)
              (is_pending g.status) (points_to g.user user) fits in
          rw (confirm_device, f)
            (decide-IsMoved user client_id user_code action g t d own
              ((eq_iff g.client_id client_id).0 client) ((eq_iff g.user_code user_code).0 code)
              pending (points_to-eq g.user user by_user))
    ]

-- Every request keeps the table in order: keys are unique and fresh, and an authorized grant has a
-- user. It moves each grant only so: entering the user code claims a pending grant in its lifetime for
-- the user of the request, or expires a grant past it; a decision authorizes or denies a pending grant,
-- if its action is "accept" or "deny" and its user is the one who claimed the grant. A new grant
-- appears only when a device asks for codes, pending and claimed by nobody.
pub Step-IsMoved : {e : Event} {t t' : Devices} → Step e t t' → IsDevices t → IsMoved e t t'
Step-IsMoved (creates now request response {t = t} {t' = t'} h) d =
    create-IsMoved now request response t t' h d
Step-IsMoved (submits now user user_code t) d = submit-IsMoved now user user_code t d
Step-IsMoved (confirms user client_id user_code action t) d =
    confirm-IsMoved user client_id user_code action t d
