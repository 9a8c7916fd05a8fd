-- ===== src/AuthorizationServer/Par/Once.antt =====
-- The table of pushed requests: a `request_uri` is redeemed once, by its own client, in its lifetime.
use mathlib.Core.Path.{subst}
use django_oauth_toolkit.Prelude.{
  ℕ, String, ◌+◌, ◌<◌, ◌⊎◌, ◌↔◌, inl, inr, ◌≡◌, refl, sym, ◌∙◌, ap, Bool, true, false, Option, none,
  some, [], ◌∷◌, ◌++◌, arith, Bool-cases, Option-cases, str_eq, eq_iff, leb, some_injective, find?,
  find?-append, find?-append_new, find?-filter, find?-filter-none, any, any-eq-false, All, All-imp,
  All-append_one, All-filter, All-filter_kept, IsKeyed, filter-IsKeyed, append_one-IsKeyed,
}
use django_oauth_toolkit.Settings.{Env, ok, ok-injective}
use django_oauth_toolkit.Models.Rows.{PushedRequest}
use django_oauth_toolkit.Models.Database.{Database}
use django_oauth_toolkit.AuthorizationServer.Par.{
  Parameters, create_pushed_authorization_request, store_pushed_request, not_issued,
  invalid_or_used, has_expired, Consumed, refused, resolved, issued_to, delete_request,
  find_request, consume_pushed_request,
}

abbrev pub has_uri : String → PushedRequest → Bool
has_uri request_uri p = str_eq p.request_uri request_uri

-- A `request_uri` finds its own row, keys are unique and handed out in order.
pub record IsPushed (db : Database) : Type 0 where
  pub own_uri :
      All (λ p. find? (has_uri p.request_uri) db.pushed_requests ≡ some p) db.pushed_requests
  pub keyed : IsKeyed (λ p. p.pk) db.pushed_requests
  pub fresh : All (λ p. p.pk < db.next_pk) db.pushed_requests

-- What redeems a `request_uri`, and what that leaves.
pub record IsRedeemed (now : ℕ) (request_uri : String) (client_id : Option String) (db : Database)
    (parameters : Parameters) (db' : Database) : Type 0 where
  pub row : PushedRequest
  pub found : find_request request_uri db ≡ some row
  pub own : issued_to client_id row ≡ true
  pub in_time : now < row.expires
  pub stored : parameters ≡ row.parameters
  pub deleted : db' ≡ delete_request row.pk db

resolved_injective : {p q : Parameters} → resolved p ≡ resolved q → p ≡ q
resolved_injective h = cc

not_late : {now expires : ℕ} → now < expires → leb expires now ≡ false
not_late h = ground arith

-- consume_pushed_request returns parameters exactly if they are those of an unexpired row of the
-- request_uri that was issued to the client, and the row is deleted.
pub consume_pushed_request_iff :
    (now : ℕ) (request_uri : String) (client_id : Option String) (db : Database)
    (parameters : Parameters) (db' : Database)
    → (consume_pushed_request now request_uri client_id db ≡ (resolved parameters, db'))
      ↔ IsRedeemed now request_uri client_id db parameters db'
unfolding consume_pushed_request
consume_pushed_request_iff now request_uri client_id db parameters db' = (
  λ h. elim (Option-cases (find_request request_uri db)) [
    | inl e ↦ cc (rw (consume_pushed_request, e) at h)
    | inr (r, e) ↦ elim (Bool-cases (issued_to client_id r)) [
      | inr other ↦ cc (rw (consume_pushed_request, e, other) at h)
      | inl own ↦ elim (Bool-cases (leb r.expires now)) [
        | inl late ↦ cc (rw (consume_pushed_request, e, own, late) at h)
        | inr timely ↦
            let both : (resolved r.parameters, delete_request r.pk db)
                ≡ (resolved parameters, db') =
              rw (consume_pushed_request, e, own, timely) at h in
            record {
              row = r;
              found = e;
              own = own;
              in_time = ground arith;
              stored = sym (resolved_injective (ap (λ x. x.0) both));
              deleted = sym (ap (λ x. x.1) both);
            }
      ]
    ]
  ],
  λ i. rw (consume_pushed_request, i.found, i.own, not_late i.in_time, i.stored, i.deleted) refl,
)

delete_request-IsPushed : (pk : ℕ) (db : Database) → IsPushed db → IsPushed (delete_request pk db)
delete_request-IsPushed pk db t = record {
  own_uri =
      All-imp _ _ (λ p h. find?-filter _ _ db.pushed_requests p h.0 h.1) _
        (All-filter_kept _ _ db.pushed_requests t.own_uri);
  keyed = filter-IsKeyed _ _ db.pushed_requests t.keyed;
  fresh = All-filter _ _ db.pushed_requests t.fresh;
}

-- The row that was found is the only one with its `request_uri`.
delete_request-gone :
    (request_uri : String) (r : PushedRequest) (db : Database)
    → IsPushed db
    → find_request request_uri db ≡ some r
    → find_request request_uri (delete_request r.pk db) ≡ none
delete_request-gone request_uri r db t found = find?-filter-none _ _ db.pushed_requests (
    All-imp _ _
      (λ p own same.
        let e : p.request_uri ≡ request_uri = (eq_iff p.request_uri request_uri).0 same in
        let both : some p ≡ some r =
          sym own ∙ ap (λ u. find? (has_uri u) db.pushed_requests) e ∙ found in
        let row : p.pk ≡ r.pk = ap (λ (q : PushedRequest). q.pk) (some_injective both) in
        ground arith)
      db.pushed_requests t.own_uri)

-- The table is in order after a request is consumed; unless it was refused for its client, which
-- changes nothing, the `request_uri` is good for nobody any more.
pub record IsConsumed (request_uri : String) (db : Database) (outcome : Consumed × Database)
    : Type 0 where
  pub kept : IsPushed outcome.1
  pub spent :
      ((outcome.0 ≡ refused not_issued) × (outcome.1 ≡ db))
      ⊎ ((now' : ℕ) (client_id' : Option String)
          → consume_pushed_request now' request_uri client_id' outcome.1
            ≡ (refused invalid_or_used, outcome.1))

-- A `request_uri` without a row is refused.
refused_again :
    (request_uri : String) (db : Database)
    → find_request request_uri db ≡ none
    → (now : ℕ) (client_id : Option String)
    → consume_pushed_request now request_uri client_id db ≡ (refused invalid_or_used, db)
unfolding consume_pushed_request
refused_again request_uri db gone now client_id = rw (consume_pushed_request, gone) refl

pub consume_pushed_request-IsConsumed :
    (now : ℕ) (request_uri : String) (client_id : Option String) (db : Database)
    → IsPushed db
    → IsConsumed request_uri db (consume_pushed_request now request_uri client_id db)
unfolding consume_pushed_request
consume_pushed_request-IsConsumed now request_uri client_id db t =
    elim (Option-cases (find_request request_uri db)) [
      | inl e ↦
          subst (IsConsumed request_uri db) (sym (refused_again request_uri db e now client_id))
            (record { kept = t; spent = inr (refused_again request_uri db e) })
      | inr (r, e) ↦
          let taken : (o : Consumed) → IsConsumed request_uri db (o, delete_request r.pk db) = λ o.
            record {
              kept = delete_request-IsPushed r.pk db t;
              spent = inr (refused_again request_uri _ (delete_request-gone request_uri r db t e));
            } in
          elim (Bool-cases (issued_to client_id r)) [
            | inr other ↦
                rw (consume_pushed_request, e, other)
                  (record { kept = t; spent = inl (refl, refl) })
            | inl own ↦ elim (Bool-cases (leb r.expires now)) [
              | inl late ↦ rw (consume_pushed_request, e, own, late) (taken (refused has_expired))
              | inr timely ↦
                  rw (consume_pushed_request, e, own, timely) (taken (resolved r.parameters))
            ]
          ]
    ]

-- The row that `store_pushed_request` adds.
abbrev pub new_request : Env → String → String → Parameters → Database → PushedRequest
new_request env request_uri client_id parameters db = record {
  pk = db.next_pk;
  request_uri = request_uri;
  client_id = client_id;
  parameters = parameters;
  expires = env.now + env.settings.par_request_uri_lifetime_seconds;
}

abbrev pub add_request : PushedRequest → Database → Database
add_request r db = record db {
  pushed_requests = db.pushed_requests ++ r ∷ [];
  next_pk = db.next_pk + 1;
}

-- A call that returns has added a row, under a `request_uri` that no row had.
pub record IsStored (env : Env) (request_uri client_id : String) (parameters : Parameters)
    (db db' : Database) : Type 0 where
  pub unused : All (λ p. has_uri request_uri p ≡ false) db.pushed_requests
  pub added : db' ≡ add_request (new_request env request_uri client_id parameters db) db

pub store_pushed_request-IsStored :
    (env : Env) (random_uri client_id : String) (parameters : Parameters) (db db' : Database)
    (request_uri : String) (expires_in : ℕ)
    → store_pushed_request env random_uri client_id parameters db
      ≡ ok (db', request_uri, expires_in)
    → (request_uri ≡ random_uri) × IsStored env random_uri client_id parameters db db'
unfolding store_pushed_request create_pushed_authorization_request
store_pushed_request-IsStored env random_uri client_id parameters db db' request_uri expires_in h =
    elim (Bool-cases (any (has_uri random_uri) db.pushed_requests)) [
      | inl taken ↦ cc (rw (store_pushed_request, create_pushed_authorization_request, taken) at h)
      | inr free ↦
          let row = new_request env random_uri client_id parameters db in
          let both : (add_request row db, random_uri, env.settings.par_request_uri_lifetime_seconds)
              ≡ (db', request_uri, expires_in) =
            ok-injective
              (rw (store_pushed_request, create_pushed_authorization_request, free) at h) in
          (
            sym (ap (λ x. x.1) both),
            record { unused = any-eq-false _ _ free; added = sym (ap (λ x. x.0) both) },
          )
    ]

module _ (r : PushedRequest) (db : Database) (t : IsPushed db)
    (unused : All (λ p. has_uri r.request_uri p ≡ false) db.pushed_requests) where
  pub add_request-find : find_request r.request_uri (add_request r db) ≡ some r
  add_request-find =
      find?-append_new _ db.pushed_requests r unused ((eq_iff r.request_uri r.request_uri).1 refl)

  pub add_request-IsPushed : r.pk ≡ db.next_pk → IsPushed (add_request r db)
  add_request-IsPushed next = record {
    own_uri =
        All-append_one _ db.pushed_requests r
          (All-imp _ _ (λ p h. find?-append (has_uri p.request_uri) db.pushed_requests (r ∷ []) p h)
            db.pushed_requests t.own_uri)
          add_request-find;
    keyed = append_one-IsKeyed _ db.pushed_requests r db.next_pk t.fresh next t.keyed;
    fresh =
        All-append_one _ db.pushed_requests r
          (All-imp _ _ (λ p h. omega arith) db.pushed_requests t.fresh) (omega arith);
  }

-- What was stored can be redeemed by its own client in its lifetime.
pub stored_redeemable :
    (env : Env) (request_uri client_id : String) (parameters : Parameters) (db db' : Database)
    (now : ℕ)
    → IsPushed db
    → IsStored env request_uri client_id parameters db db'
    → str_eq client_id "" ≡ false
    → now < env.now + env.settings.par_request_uri_lifetime_seconds
    → IsPushed db'
      × (consume_pushed_request now request_uri (some client_id) db'
          ≡ (resolved parameters, delete_request db.next_pk db'))
stored_redeemable env request_uri client_id parameters db db' now t s named timely = rw s.added (
  add_request-IsPushed (new_request env request_uri client_id parameters db) db t s.unused refl,
  (consume_pushed_request_iff now request_uri (some client_id) _ parameters _).1 (record {
    row = new_request env request_uri client_id parameters db;
    found = add_request-find (new_request env request_uri client_id parameters db) db t s.unused;
    own = rw (named, (eq_iff client_id client_id).1 refl) refl;
    in_time = timely;
    stored = refl;
    deleted = refl;
  }),
)

-- A request that was redeemed cannot be redeemed again.
pub consumed_spent :
    (now : ℕ) (request_uri : String) (client_id : Option String) (parameters : Parameters)
    (db db' : Database)
    → IsPushed db
    → consume_pushed_request now request_uri client_id db ≡ (resolved parameters, db')
    → (now' : ℕ) (client_id' : Option String)
    → consume_pushed_request now' request_uri client_id' db' ≡ (refused invalid_or_used, db')
consumed_spent now request_uri client_id parameters db db' t h =
    let c : IsConsumed request_uri db (resolved parameters, db') =
      subst (IsConsumed request_uri db) h
        (consume_pushed_request-IsConsumed now request_uri client_id db t) in
    elim c.spent [ inl bad ↦ cc (bad.0) | inr spent ↦ spent ]
