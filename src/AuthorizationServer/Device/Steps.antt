-- ===== src/AuthorizationServer/Device/Steps.antt =====
-- The device flow as a state machine: what a request does to each grant.
use mathlib.Core.Path.{subst}
use mathlib.Core.Option
use django_oauth_toolkit.Prelude.{
  ℕ, String, ◌<◌, ◌≤◌, none, inl, inr, ◌≡◌, refl, sym, ◌∙◌, ap, Bool, true, Option, some, List, [],
  ◌∷◌, arith, Bool-cases, ◌==◌, ==_iff, str_eq, some_injective, if◌then◌else◌, is_some, filter,
  find?, find?-All, find?-map, update_where, All, All-both, All-total, All-map, All-filter_kept,
  IsKeyed, map-IsKeyed,
}
use django_oauth_toolkit.AuthorizationServer.Device.{
  Status, authorized, authorization_pending, expired, denied, other_status, DeviceGrant, Devices,
  is_pending, one, found_in, get_where, find_device,
}

-- A request to the views: a device asks for codes, a user enters a user code, or a user decides on a
-- grant, which the URL names by its client and its user code.
pub data Event : Type 0 where
  started : Event
  entered : (now user : ℕ) (user_code : String) → Event
  decided : (user : ℕ) (client_id user_code action : String) → Event

-- What a request does to one grant. Entering its user code claims a grant that is pending and in its
-- lifetime for the user of the request, and expires one that is past it. A decision takes effect only
-- if the grant is pending and the user who decides is the one who claimed it.
pub data Move : Event → DeviceGrant → DeviceGrant → Type 0 where
  stays : (e : Event) (g : DeviceGrant) → Move e g g
  expires :
      (g : DeviceGrant) (now user : ℕ) (user_code : String)
      → g.user_code ≡ user_code
      → g.expires ≤ now
      → Move (entered now user user_code) g (record g { status = expired })
  claims :
      (g : DeviceGrant) (now user : ℕ) (user_code : String)
      → g.user_code ≡ user_code
      → now < g.expires
      → is_pending g.status ≡ true
      → Move (entered now user user_code) g (record g { user = some user })
  accepts :
      (g : DeviceGrant) (user : ℕ) (client_id user_code : String)
      → g.client_id ≡ client_id
      → g.user_code ≡ user_code
      → is_pending g.status ≡ true
      → g.user ≡ some user
      → Move (decided user client_id user_code "accept") g (record g { status = authorized })
  denies :
      (g : DeviceGrant) (user : ℕ) (client_id user_code : String)
      → g.client_id ≡ client_id
      → g.user_code ≡ user_code
      → is_pending g.status ≡ true
      → g.user ≡ some user
      → Move (decided user client_id user_code "deny") g (record g { status = denied })

-- A grant is made only when a device asks for codes: pending, and claimed by nobody.
abbrev pub Appears : Event → DeviceGrant → Type 0
Appears started g = (is_pending g.status ≡ true) × (g.user ≡ none)
Appears (entered now user user_code) g = ⊥
Appears (decided user client_id user_code action) g = ⊥

-- An authorized grant has a user.
abbrev pub OwnedAt : Status → Option ℕ → Type 0
OwnedAt authorized user = is_some user ≡ true
OwnedAt authorization_pending user = Unit
OwnedAt expired user = Unit
OwnedAt denied user = Unit
OwnedAt (other_status s) user = Unit

abbrev pub IsOwned : DeviceGrant → Type 0
IsOwned g = OwnedAt g.status g.user

-- Keys are unique and handed out in order.
pub record IsDevices (t : Devices) : Type 0 where
  pub keyed : IsKeyed (λ g. g.pk) t.grants
  pub fresh : All (λ g. g.pk < t.next_pk) t.grants
  pub owned : All IsOwned t.grants

-- What a request leaves: the invariant, every grant, moved, and new grants only where they may appear.
pub record IsMoved (e : Event) (t t' : Devices) : Type 0 where
  pub devices : IsDevices t'
  pub moves :
      (code : String) (g : DeviceGrant)
      → find_device code t ≡ some g
      → (g' : DeviceGrant) × (find_device code t' ≡ some g') × Move e g g'
  pub appears :
      (code : String) (g : DeviceGrant)
      → find_device code t ≡ none
      → find_device code t' ≡ some g
      → Appears e g

owned-none : (s : Status) (user : Option ℕ) → is_pending s ≡ true → OwnedAt s user
owned-none authorized user p = cc
owned-none authorization_pending user p = tt
owned-none expired user p = tt
owned-none denied user p = tt
owned-none (other_status s) user p = tt

pub Move-IsOwned : {e : Event} {g g' : DeviceGrant} → Move e g g' → IsOwned g → IsOwned g'
Move-IsOwned (stays e g) o = o
Move-IsOwned (expires g now u c q l) o = tt
Move-IsOwned (claims g now u c q l p) o = owned-none g.status (some u) p
Move-IsOwned (accepts g u i c q k p h) o = rw h refl
Move-IsOwned (denies g u i c q k p h) o = tt

pub unmoved : (e : Event) (t : Devices) → IsDevices t → IsMoved e t t
unmoved e t d = record {
  devices = d;
  moves = λ code g found. (g, found, stays e g);
  appears = λ code g missed found. cc;
}

-- A write of the row of one grant.
module _ (e : Event) (t : Devices) (d : IsDevices t) (g0 : DeviceGrant)
    (own : find? (λ y. y.pk == g0.pk) t.grants ≡ some g0) (f : DeviceGrant → DeviceGrant)
    (m : Move e g0 (f g0)) (pk-f : (g : DeviceGrant) → (f g).pk ≡ g.pk)
    (code-f : (g : DeviceGrant) → (f g).device_code ≡ g.device_code) where
  abbrev change : DeviceGrant → DeviceGrant
  change g = if g.pk == g0.pk then f g else g

  change-Move :
      (g : DeviceGrant) → find? (λ y. y.pk == g.pk) t.grants ≡ some g → Move e g (change g)
  change-Move g found = elim (Bool-cases (g.pk == g0.pk)) [
    | inr other ↦ rw other (stays e g)
    | inl same ↦
        let key : g.pk ≡ g0.pk = (==_iff g.pk g0.pk).0 same in
        let row : g ≡ g0 =
          some_injective (sym found ∙ ap (λ (j : ℕ). find? (λ y. y.pk == j) t.grants) key ∙ own) in
        rw same (rw row m)
  ]

  change-pk : (g : DeviceGrant) → (change g).pk ≡ g.pk
  change-pk g = ground (arith, pk-f g)

  change-code : (g : DeviceGrant) → (change g).device_code ≡ g.device_code
  change-code g = elim (Bool-cases (g.pk == g0.pk)) [
    | inl same ↦ rw same (code-f g)
    | inr other ↦ rw other refl
  ]

  find-change :
      (code : String)
      → find_device code (record t { grants = update_where (λ g. g.pk == g0.pk) f t.grants })
        ≡ Option.map change (find_device code t)
  find-change code =
      find?-map _ change t.grants
        (All-total _ (λ h. ap (λ c. str_eq c code) (change-code h)) t.grants)

  pub updated : IsMoved e t (record t { grants = update_where (λ g. g.pk == g0.pk) f t.grants })
  updated = record {
    devices = record {
      keyed = map-IsKeyed _ change change-pk t.grants d.keyed;
      fresh = All-map _ _ change (λ g h. rw (change-pk g) h) t.grants d.fresh;
      owned =
          All-map _ _ change (λ g h. Move-IsOwned (change-Move g h.0) h.1) t.grants
            (All-both _ _ t.grants d.keyed d.owned);
    };
    moves = λ code g found. (
      change g,
      find-change code ∙ ap (Option.map change) found,
      change-Move g (find?-All _ _ t.grants g d.keyed found),
    );
    appears =
        λ code g missed found. cc (sym (find-change code ∙ ap (Option.map change) missed) ∙ found);
  }

-- The row that a lookup by several columns returns.
module _ {ℓ} (Q : DeviceGrant → Type ℓ) where
  found_in-get : (gs : List DeviceGrant) (g : DeviceGrant) → All Q gs → found_in gs ≡ one g → Q g
  found_in-get [] g h e = cc
  found_in-get (x ∷ []) g (q, h) e = let same : x ≡ g = cc in subst Q same q
  found_in-get (x ∷ y ∷ l) g h e = cc

pub get_where-found :
    (p : DeviceGrant → Bool) (t : Devices) (g : DeviceGrant)
    → IsDevices t
    → get_where p t ≡ one g
    → (find? (λ y. y.pk == g.pk) t.grants ≡ some g) × (p g ≡ true)
get_where-found p t g d e =
    found_in-get _ (filter p t.grants) g (All-filter_kept _ p t.grants d.keyed) e
