-- ===== src/AuthorizationServer/Device/Completes.antt =====
-- The device flow from its start to the poll that passes the checks.
use django_oauth_toolkit.Prelude.{
  if◌then◌else◌, ℕ, ◌+◌, ◌<◌, inl, inr, ◌≡◌, refl, ap, Bool, true, false, some, List, [], ◌∷◌, ◌++◌,
  arith, Bool-cases, ◌==◌, ==_refl, str_eq, eq_iff, any, any-eq-false, leb, filter,
  find?-append_new, update_where, All, All-imp,
}
use django_oauth_toolkit.Text.{split_words}
use django_oauth_toolkit.Settings.{ok}
use django_oauth_toolkit.AuthorizationServer.Device.{
  authorized, DeviceGrant, Devices, is_pending, is_marked_expired, device_is_expired, DeviceRequest,
  DeviceCodeResponse, new_device_grant, create_device_grant, to_confirm, submit_found,
  submit_user_code, is_confirmable, to_status, decide, confirm_device, proceeds, poll_answer,
  device_flow_token_response, scope_or, set_oauthlib_user_to_device_request_user,
}
use django_oauth_toolkit.AuthorizationServer.Device.Steps.{IsDevices}

module _ {ℓ} {A : Type ℓ} (p : A → Bool) (a : A) (hit : p a ≡ true) where
  filter-last : (xs : List A) → All (λ x. p x ≡ false) xs → filter p (xs ++ a ∷ []) ≡ a ∷ []
  filter-last [] h = rw hit refl
  filter-last (x ∷ xs) (q, h) = rw q (filter-last xs h)

-- A write of the row that was appended leaves the others.
update-last :
    (f : DeviceGrant → DeviceGrant) (g : DeviceGrant) (gs : List DeviceGrant)
    → All (λ x. x.pk < g.pk) gs
    → update_where (λ x. x.pk == g.pk) f (gs ++ g ∷ []) ≡ gs ++ f g ∷ []
update-last f g [] h = rw (==_refl g.pk) refl
update-last f g (x ∷ gs) (q, h) =
    let other : (x.pk == g.pk) ≡ false = ground arith in
    rw other (ap (λ l. x ∷ l) (update-last f g gs h))

confirmable :
    (user : ℕ) (g : DeviceGrant)
    → is_pending g.status ≡ true
    → g.user ≡ some user
    → is_confirmable user g.client_id g.user_code g ≡ true
confirmable user g pending claimed =
    rw
      (
        (eq_iff g.client_id g.client_id).1 refl,
        (eq_iff g.user_code g.user_code).1 refl,
        pending,
        claimed,
      )
      (==_refl user)

other_code :
    (user : ℕ) (g x : DeviceGrant)
    → str_eq x.user_code g.user_code ≡ false
    → is_confirmable user g.client_id g.user_code x ≡ false
other_code user g x miss = elim (Bool-cases (str_eq x.client_id g.client_id)) [
  | inl same ↦ rw (same, miss) refl
  | inr other ↦ rw other refl
]

-- A table with a grant at its end whose two codes are no other's.
module _ (gs : List DeviceGrant) (n : ℕ) (g : DeviceGrant) (older : All (λ x. x.pk < g.pk) gs)
    (no_device : All (λ x. str_eq x.device_code g.device_code ≡ false) gs)
    (no_user : All (λ x. str_eq x.user_code g.user_code ≡ false) gs) where
  abbrev ends_with : DeviceGrant → Devices
  ends_with h = record { grants = gs ++ h ∷ []; next_pk = n }

  submit_last :
      (now user : ℕ)
      → is_marked_expired g.status ≡ false
      → is_pending g.status ≡ true
      → now < g.expires
      → submit_user_code now user g.user_code (ends_with g)
        ≡ (to_confirm g.client_id g.user_code, ends_with (record g { user = some user }))
  unfolding submit_user_code submit_found device_is_expired
  submit_last now user unmarked pending timely =
      let running : leb g.expires now ≡ false = ground arith in
      let only =
        filter-last (λ x. str_eq x.user_code g.user_code) g
          ((eq_iff g.user_code g.user_code).1 refl) gs no_user in
      rw (submit_user_code, only, submit_found, device_is_expired, unmarked, pending, running)
        (ap (λ l. (to_confirm g.client_id g.user_code, record { grants = l; next_pk = n }))
          (update-last (λ x. record x { user = some user }) g gs older))

  confirm_last :
      (user : ℕ)
      → is_pending g.status ≡ true
      → g.user ≡ some user
      → confirm_device user g.client_id g.user_code "accept" (ends_with g)
        ≡ (to_status, ends_with (record g { status = authorized }))
  unfolding confirm_device decide
  confirm_last user pending claimed =
      let fits : is_confirmable user g.client_id g.user_code g ≡ true =
        confirmable user g pending claimed in
      let only =
        filter-last (is_confirmable user g.client_id g.user_code) g fits gs
          (All-imp _ _ (λ x miss. other_code user g x miss) gs no_user) in
      rw (confirm_device, only, decide)
        (ap (λ l. (to_status, record { grants = l; next_pk = n }))
          (update-last (λ x. record x { status = authorized }) g gs older))

  poll_last :
      g.status ≡ authorized → device_flow_token_response g.device_code (ends_with g) ≡ proceeds g
  unfolding device_flow_token_response
  poll_last done =
      let found =
        find?-append_new (λ x. str_eq x.device_code g.device_code) gs g no_device
          ((eq_iff g.device_code g.device_code).1 refl) in
      rw (device_flow_token_response, found) (ap (poll_answer g) done)

  hook_last :
      set_oauthlib_user_to_device_request_user g.device_code (ends_with g)
      ≡ some (g.user, if str_eq g.scope "" then [] else split_words g.scope)
  unfolding set_oauthlib_user_to_device_request_user
  hook_last =
      let found =
        find?-append_new (λ x. str_eq x.device_code g.device_code) gs g no_device
          ((eq_iff g.device_code g.device_code).1 refl) in
      rw (set_oauthlib_user_to_device_request_user, found) refl

-- A device asks for codes that no grant has; a user enters the user code in its lifetime and accepts.
-- Then the next poll passes the checks with a grant of that user, with the client and the scope that
-- were asked for, and the hook of the token response gives it that user and these scopes.
pub device_flow_completes :
    (created later user : ℕ) (request : DeviceRequest) (response : DeviceCodeResponse) (t : Devices)
    → IsDevices t
    → any (λ g. str_eq g.device_code response.device_code) t.grants ≡ false
    → any (λ g. str_eq g.user_code response.user_code) t.grants ≡ false
    → later < created + response.expires_in
    → (t1 t2 t3 : Devices) × (g : DeviceGrant) × (create_device_grant created request response t
        ≡ ok t1)
      × (submit_user_code later user response.user_code t1
          ≡ (to_confirm request.client_id response.user_code, t2))
      × (confirm_device user request.client_id response.user_code "accept" t2 ≡ (to_status, t3))
      × (device_flow_token_response response.device_code t3 ≡ proceeds g)
      × (g.user ≡ some user)
      × (g.client_id ≡ request.client_id)
      × (g.scope ≡ scope_or request.scope)
      × (set_oauthlib_user_to_device_request_user response.device_code t3
          ≡ some (
            some user,
            if str_eq (scope_or request.scope) "" then [] else split_words (scope_or request.scope),
          ))
unfolding create_device_grant
device_flow_completes created later user request response t d no_device no_user timely =
    let g = new_device_grant created request response t in
    let claimed = record g { user = some user } in
    let done = record claimed { status = authorized } in
    let devices = any-eq-false _ t.grants no_device in
    let users = any-eq-false _ t.grants no_user in
    (
      ends_with t.grants (t.next_pk + 1) g d.fresh devices users g,
      ends_with t.grants (t.next_pk + 1) g d.fresh devices users claimed,
      ends_with t.grants (t.next_pk + 1) g d.fresh devices users done,
      done,
      rw (create_device_grant, no_device) refl,
      submit_last t.grants (t.next_pk + 1) g d.fresh devices users later user refl refl timely,
      confirm_last t.grants (t.next_pk + 1) claimed d.fresh devices users user refl refl,
      poll_last t.grants (t.next_pk + 1) done d.fresh devices users refl,
      refl,
      refl,
      refl,
      hook_last t.grants (t.next_pk + 1) done d.fresh devices users,
    )
