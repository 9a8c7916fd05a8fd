-- ===== src/ResourceServer/Bearer/Stores.antt =====
-- `update_or_create` of an access token by its checksum: what it stores, and what it leaves.
use django_oauth_toolkit.Prelude.{
  ℕ, String, inl, inr, ◌≡◌, refl, sym, ◌∙◌, ap, true, false, Option, some, List, Bool-cases,
  Option-cases, ◌==◌, ==_iff, ==_refl, str_eq, eq_iff, some_injective, find?, find?-test, find?-map,
  find?-append_new, find?-append_other, find?-eq-none, find?-All, update_where, All-total, IsKeyed,
  if◌then◌else◌,
}
use mathlib.Core.Option
use django_oauth_toolkit.Models.Rows.{AccessToken}
use django_oauth_toolkit.Models.Database.{Database}
use django_oauth_toolkit.ResourceServer.Bearer.{blank, find_checksum, update_or_create}

-- Under the other checksums the same rows are found.
abbrev pub IsUntouched : String → Database → Database → Type 0
IsUntouched checksum db db' =
    (other : String)
    → str_eq checksum other ≡ false
    → find_checksum other db' ≡ find_checksum other db

-- A write that leaves the checksum and the key.
module _ (checksum : String) (write : AccessToken → AccessToken)
    (same_checksum : (a : AccessToken) → (write a).token_checksum ≡ a.token_checksum) where
  -- What `update_or_create` leaves: the written row, found under the checksum.
  pub record IsSaved (db db' : Database) (a : AccessToken) : Type 0 where
    pub before : AccessToken
    pub is_write : a ≡ write before
    pub checksum_of : a.token_checksum ≡ checksum
    pub found : find_checksum checksum db' ≡ some a
    pub only : db' ≡ record db { access_tokens = db'.access_tokens; next_pk = db'.next_pk }

  abbrev change : AccessToken → AccessToken → AccessToken
  change b x = if x.pk == b.pk then write x else x

  change-checksum : (b x : AccessToken) → (change b x).token_checksum ≡ x.token_checksum
  change-checksum b x = elim (Bool-cases (x.pk == b.pk)) [
    | inl here ↦ rw here (same_checksum x)
    | inr later ↦ rw later refl
  ]

  find-change :
      (other : String) (b : AccessToken) (xs : List AccessToken)
      → find? (λ a. str_eq a.token_checksum other) (update_where (λ x. x.pk == b.pk) write xs)
        ≡ Option.map (change b) (find? (λ a. str_eq a.token_checksum other) xs)
  find-change other b xs =
      find?-map _ (change b) xs
        (All-total _ (λ x. ap (λ c. str_eq c other) (change-checksum b x)) xs)

  found_checksum :
      (db : Database) (b : AccessToken)
      → find_checksum checksum db ≡ some b
      → b.token_checksum ≡ checksum
  found_checksum db b e = (eq_iff b.token_checksum checksum).0 (find?-test _ db.access_tokens b e)

  pub update_or_create-IsSaved :
      (db : Database)
      → IsSaved db (update_or_create checksum write db).1 (update_or_create checksum write db).0
  unfolding update_or_create
  update_or_create-IsSaved db = elim (Option-cases (find_checksum checksum db)) [
    | inl e ↦
        let new = blank db.next_pk checksum in
        rw (update_or_create, e)
          (record {
            before = new;
            is_write = refl;
            checksum_of = same_checksum new;
            found =
                find?-append_new _ db.access_tokens (write new) (find?-eq-none _ db.access_tokens e)
                  ((eq_iff (write new).token_checksum checksum).1 (same_checksum new));
            only = refl;
          })
    | inr (b, e) ↦
        let here : change b b ≡ write b = rw (==_refl b.pk) refl in
        rw (update_or_create, e)
          (record {
            before = b;
            is_write = refl;
            checksum_of = same_checksum b ∙ found_checksum db b e;
            found =
                find-change checksum b db.access_tokens
                ∙ ap (Option.map (change b)) e
                ∙ ap some here;
            only = refl;
          })
  ]

  -- The row that is written is found under no other checksum.
  change-other :
      (db : Database) (b x : AccessToken) (other : String)
      → IsKeyed (λ (a : AccessToken). a.pk) db.access_tokens
      → find_checksum checksum db ≡ some b
      → str_eq checksum other ≡ false
      → find_checksum other db ≡ some x
      → change b x ≡ x
  change-other db b x other keyed e differs found = elim (Bool-cases (x.pk == b.pk)) [
    | inr later ↦ rw later refl
    | inl here ↦
        let by_key : ℕ → Option AccessToken = λ j. find? (λ a. a.pk == j) db.access_tokens in
        let x_here : by_key x.pk ≡ some x = find?-All _ _ db.access_tokens x keyed found in
        let b_here : by_key b.pk ≡ some b = find?-All _ _ db.access_tokens b keyed e in
        let row : x ≡ b =
          some_injective (sym x_here ∙ ap by_key ((==_iff x.pk b.pk).0 here) ∙ b_here) in
        let named : x.token_checksum ≡ checksum =
          ap (λ (a : AccessToken). a.token_checksum) row ∙ found_checksum db b e in
        let fits : str_eq x.token_checksum other ≡ true = find?-test _ db.access_tokens x found in
        cc
  ]

  pub update_or_create-IsUntouched :
      (db : Database)
      → IsKeyed (λ (a : AccessToken). a.pk) db.access_tokens
      → IsUntouched checksum db (update_or_create checksum write db).1
  unfolding update_or_create
  update_or_create-IsUntouched db keyed = λ other differs.
      elim (Option-cases (find_checksum checksum db)) [
        | inl e ↦
            let new = write (blank db.next_pk checksum) in
            let misses : str_eq new.token_checksum other ≡ false =
              ap (λ c. str_eq c other) (same_checksum (blank db.next_pk checksum)) ∙ differs in
            rw (update_or_create, e) (find?-append_other _ db.access_tokens new misses)
        | inr (b, e) ↦
            rw (update_or_create, e)
              (find-change other b db.access_tokens
                ∙ (elim (Option-cases (find_checksum other db)) [
                  | inl none_such ↦ rw none_such refl
                  | inr (x, found) ↦
                      rw found (ap some (change-other db b x other keyed e differs found))
                ]))
      ]
