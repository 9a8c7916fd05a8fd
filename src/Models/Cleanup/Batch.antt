-- ===== src/Models/Cleanup/Batch.antt =====
-- `batch_delete` ends, and leaves no row that matches.
use mathlib.Core.Path.{subst}
use django_oauth_toolkit.Prelude.{
  ◌⊎◌, ℕ, zero, suc, ◌<◌, ◌≤◌, ◌≡◌, refl, sym, ◌∙◌, ap, inl, inr, Bool, true, not, some, List, [],
  ◌∷◌, arith, Bool-cases, ◌==◌, ==_iff, ==_refl, if◌then◌else◌, length, take, filter, find?, any,
  All, All-imp, All-filter_kept, IsKeyed,
}
use django_oauth_toolkit.Models.Database.{Database}
use django_oauth_toolkit.Models.Cleanup.{Queryset, key_in, matching, is_empty, batch_delete}

module _ {ℓ} {A : Type ℓ} where
  pub length-filter-le :
      (p : A → Bool) (xs : List A) → length (filter (λ x. not (p x)) xs) ≤ length xs
  length-filter-le p [] = omega arith
  length-filter-le p (x ∷ xs) = ground (arith, length-filter-le p xs)

  length-filter-lt :
      (p q : A → Bool) (xs : List A) (a : A)
      → find? q xs ≡ some a
      → p a ≡ true
      → length (filter (λ x. not (p x)) xs) < length xs
  length-filter-lt p q [] a e h = cc
  length-filter-lt p q (x ∷ xs) a e h =
      ground (arith, length-filter-lt p q xs a, length-filter-le p xs)

module _ {ℓ κ} {A : Type ℓ} (P : A → Type κ) where
  All-take : (n : ℕ) (xs : List A) → All P xs → All P (take n xs)
  All-take zero xs h = tt
  All-take (suc n) [] h = tt
  All-take (suc n) (x ∷ xs) (q, h) = (q, All-take n xs h)

  any-get : (p : A → Bool) (xs : List A) → All P xs → any p xs ≡ true → (a : A) × (p a ≡ true) × P a
  any-get p [] h e = cc
  any-get p (x ∷ xs) (q, h) e = elim (Bool-cases (p x)) [
    | inl hit ↦ (x, hit, q)
    | inr miss ↦ any-get p xs h (ground arith)
  ]

-- The rows whose keys are in a batch of the table's own rows are that batch's.
module _ {A : Type 0} (q : Queryset A) (db : Database) (size : ℕ)
    (keyed : IsKeyed q.key (q.rows db)) where
  batch_kept :
      All
        (λ b. (find? (λ y. q.key y == q.key b) (q.rows db) ≡ some b) × (q.matches db b ≡ true))
        (take size (matching q db))
  batch_kept = All-take _ size (matching q db) (All-filter_kept _ (q.matches db) (q.rows db) keyed)

  batch_matches :
      All
        (λ a. key_in q.key (take size (matching q db)) a ≡ true → q.matches db a ≡ true)
        (q.rows db)
  batch_matches =
      All-imp _ _
        (λ a found e.
          let (b, same, (other, hit)) = any-get _ _ (take size (matching q db)) batch_kept e in
          let key : q.key b ≡ q.key a = (==_iff (q.key b) (q.key a)).0 same in
          let both : some b ≡ some a =
            sym other ∙ ap (λ j. find? (λ y. q.key y == j) (q.rows db)) key ∙ found in
          let row : b ≡ a = cc in ap (q.matches db) (sym row) ∙ hit)
        (q.rows db) keyed

List-cases {ℓ} :
    {A : Type ℓ} (xs : List A) → (xs ≡ []) ⊎ ((a : A) × (more : List A) × (xs ≡ a ∷ more))
List-cases [] = inl refl
List-cases (a ∷ more) = inr (a, more, refl)

-- With batches that are not empty and more fuel than rows, the loop ends with no row left that
-- matches, and keeps what each delete of matching rows keeps.
module _ {κ} {A : Type 0} (q : Queryset A) (P : Database → Type κ)
    (keyed : (db : Database) → P db → IsKeyed q.key (q.rows db))
    (rows_delete : (p : A → Bool) (db : Database)
      → q.rows (q.delete p db) ≡ filter (λ a. not (p a)) (q.rows db))
    (keep : (p : A → Bool) (db : Database)
      → P db
      → All (λ a. p a ≡ true → q.matches db a ≡ true) (q.rows db)
      → P (q.delete p db)) where
  shorter :
      (size : ℕ) (db : Database) (a : A) (more : List A)
      → P db
      → matching q db ≡ a ∷ more
      → length (q.rows (q.delete (key_in q.key (take (suc size) (matching q db))) db))
        < length (q.rows db)
  shorter size db a more h e =
      let kept =
        subst
          (All
            (λ b. (find? (λ y. q.key y == q.key b) (q.rows db) ≡ some b) × (q.matches db b ≡ true)))
          e (All-filter_kept _ (q.matches db) (q.rows db) (keyed db h)) in
      let hit : key_in q.key (take (suc size) (matching q db)) a ≡ true =
        rw e (ground (arith, ==_refl (q.key a))) in
      rw rows_delete (
        length-filter-lt (key_in q.key (take (suc size) (matching q db))) _ (q.rows db) a kept.0.0
          hit)

  pub batch_delete-ends :
      (size fuel : ℕ) (db : Database)
      → length (q.rows db) < fuel
      → P db
      → (db' : Database) × (batch_delete q (suc size) fuel db ≡ some db')
        × P db'
        × (matching q db' ≡ [])
  unfolding batch_delete
  batch_delete-ends size zero db m h = elim m [ ]
  batch_delete-ends size (suc fuel) db m h = elim (List-cases (matching q db)) [
    | inl e ↦ (db, rw e refl, h, e)
    | inr (a, more, e) ↦
        let p = key_in q.key (take (suc size) (matching q db)) in
        let less = shorter size db a more h e in
        let (db', ends, after, cleared) =
          batch_delete-ends size fuel (q.delete p db) (omega arith)
            (keep p db h (batch_matches q db (suc size) (keyed db h))) in
        (
          db',
          ap (λ l. if is_empty l then some db else batch_delete q (suc size) fuel (q.delete p db)) e
              ∙ ends,
          after,
          cleared,
        )
  ]
