-- ===== src/Validator/Client/Loaded.antt =====
-- What the lookup of a client leaves.
use django_oauth_toolkit.Prelude.{
  String, inl, inr, ◌≡◌, refl, sym, ◌∙◌, ap, Bool, true, false, ◌&&◌, Option, none, some,
  Bool-cases, Option-cases, some_injective, find?,
}
use django_oauth_toolkit.Models.Rows.{Application}
use django_oauth_toolkit.Models.Database.{Database}
use django_oauth_toolkit.Validator.Request.{Request}
use django_oauth_toolkit.Validator.Client.{
  Outcome, Clients, has_id, cached, accept, refreshed, load_stored, load_application,
}

-- A lookup changes the client of the request only, to the usable application that it returns.
pub record IsLoaded (c : Clients) (request : Request) (o : Outcome (Option Application))
    : Type 0 where
  pub client : Option Application
  pub others : o.1 ≡ record request { client = client }
  pub loaded : (a : Application) → o.0 ≡ some a → (client ≡ some a) × (c.is_usable a ≡ true)

pub and_right : (a b : Bool) → (a && b) ≡ true → b ≡ true
and_right true b h = h
and_right false b h = cc

pub and_left : (a b : Bool) → (a && b) ≡ true → a ≡ true
and_left true b h = refl
and_left false b h = cc

module _ (c : Clients) where
  accept-IsLoaded :
      (request : Request) (found : Option Application × Database)
      → IsLoaded c request (accept c (record request { client = none }) found)
  unfolding accept
  accept-IsLoaded request (none, db) = record { client = none; others = refl; loaded = λ a e. cc }
  accept-IsLoaded request (some a, db) = elim (Bool-cases (c.is_usable a)) [
    | inl usable ↦
        rw (accept, usable)
          (record {
            client = some a;
            others = refl;
            loaded = λ b e.
                let same : a ≡ b = some_injective e in
                (ap some same, ap c.is_usable (sym same) ∙ usable);
          })
    | inr not_usable ↦
        rw (accept, not_usable) (record { client = none; others = refl; loaded = λ b e. cc })
  ]

  load_stored-IsLoaded :
      (client_id : Option String) (request : Request) (db : Database)
      → IsLoaded c request (load_stored c client_id (record request { client = none }) db)
  unfolding load_stored
  load_stored-IsLoaded client_id request db = elim (Bool-cases (c.is_representable client_id)) [
    | inr bad ↦ rw (load_stored, bad) (record { client = none; others = refl; loaded = λ b e. cc })
    | inl fine ↦ elim (Option-cases (find? (has_id client_id) db.applications)) [
      | inl e ↦
          rw (load_stored, fine, e)
            (accept-IsLoaded request (c.resolve_cimd_application client_id db))
      | inr (a, e) ↦
          rw (load_stored, fine, e) (accept-IsLoaded request (refreshed (c.refresh_if_stale a db)))
    ]
  ]

  cached-usable :
      (client_id : Option String) (o : Option Application) (a : Application)
      → cached c client_id o ≡ some a
      → (o ≡ some a) × (c.is_usable a ≡ true)
  cached-usable client_id none a e = cc
  cached-usable client_id (some b) a e = elim (Bool-cases (has_id client_id b && c.is_usable b)) [
    | inr miss ↦ cc (rw miss at e)
    | inl hit ↦
        let same : b ≡ a = some_injective (rw hit at e) in
        (ap some same, ap c.is_usable (sym same) ∙ and_right (has_id client_id b) _ hit)
  ]

  pub load_application-IsLoaded :
      (client_id : Option String) (request : Request) (db : Database)
      → IsLoaded c request (load_application c client_id request db)
  unfolding load_application
  load_application-IsLoaded client_id request db =
      elim (Option-cases (cached c client_id request.client)) [
        | inl e ↦ rw (load_application, e) (load_stored-IsLoaded client_id request db)
        | inr (a, e) ↦
            let (own, usable) = cached-usable client_id request.client a e in
            rw (load_application, e)
              (record {
                client = request.client;
                others = refl;
                loaded = λ b same.
                    let s : a ≡ b = some_injective same in
                    (own ∙ ap some s, ap c.is_usable (sym s) ∙ usable);
              })
      ]
