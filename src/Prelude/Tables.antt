-- ===== src/Prelude/Tables.antt =====
-- Lemmas on searching and changing tables.
use mathlib.Core.Path.{◌≡◌, refl, subst}
use mathlib.Core.Logic.{inl, inr}
use mathlib.Core.Bool.{Bool, true, false}
use mathlib.Core.Option
use mathlib.Core.Option.{Option, none, some}
use mathlib.Core.List.{List, [], ◌∷◌, ◌++◌, map}
use native.Mathlib.Omega.{arith}
use django_oauth_toolkit.Prelude.Tests.{Bool-cases, some_injective}
use django_oauth_toolkit.Prelude.Lists.{filter, find?, any, All}

module _ {ℓ κ μ} {A : Type ℓ} {B : Type ℓ} where
  pub All-map :
      (P : A → Type κ) (Q : B → Type μ) (f : A → B)
      → ((x : A) → P x → Q (f x))
      → (xs : List A) → All P xs
      → All Q (map f xs)
  All-map P Q f h [] t = tt
  All-map P Q f h (x ∷ xs) (p, t) = (h x p, All-map P Q f h xs t)

module _ {ℓ κ μ} {A : Type ℓ} where
  pub All-imp :
      (P : A → Type κ) (Q : A → Type μ)
      → ((x : A) → P x → Q x)
      → (xs : List A) → All P xs
      → All Q xs
  All-imp P Q h [] t = tt
  All-imp P Q h (x ∷ xs) (p, t) = (h x p, All-imp P Q h xs t)

module _ {ℓ κ} {A : Type ℓ} where
  pub All-total : (P : A → Type κ) → ((x : A) → P x) → (xs : List A) → All P xs
  All-total P h [] = tt
  All-total P h (x ∷ xs) = (h x, All-total P h xs)

  -- What is found satisfies what all rows satisfy.
  pub find?-All :
      (P : A → Type κ) (p : A → Bool) (xs : List A) (a : A) → All P xs → find? p xs ≡ some a → P a
  find?-All P p [] a h e = cc
  find?-All P p (x ∷ xs) a (q, h) e = elim (Bool-cases (p x)) [
    | inl here ↦ let same : x ≡ a = cc (rw here at e) in subst P same q
    | inr later ↦ find?-All P p xs a h (rw later at e)
  ]

module _ {ℓ} {A : Type ℓ} where
  pub find?-test : (p : A → Bool) (xs : List A) (a : A) → find? p xs ≡ some a → p a ≡ true
  find?-test p [] a e = cc
  find?-test p (x ∷ xs) a e = elim (Bool-cases (p x)) [
    | inl here ↦ let same : x ≡ a = cc (rw here at e) in subst (λ y. p y ≡ true) same here
    | inr later ↦ find?-test p xs a (rw later at e)
  ]

  -- A row that is appended does not hide one that is found.
  pub find?-append :
      (p : A → Bool) (xs ys : List A) (a : A) → find? p xs ≡ some a → find? p (xs ++ ys) ≡ some a
  find?-append p [] ys a e = cc
  find?-append p (x ∷ xs) ys a e = ground (arith, find?-append p xs ys a)

  -- It is found where no older row is.
  pub find?-append_new :
      (p : A → Bool) (xs : List A) (a : A)
      → All (λ x. p x ≡ false) xs
      → p a ≡ true
      → find? p (xs ++ a ∷ []) ≡ some a
  find?-append_new p [] a h e = rw e
  find?-append_new p (x ∷ xs) a (q, h) e = rw q (find?-append_new p xs a h e)

  -- A row at the end that does not fit changes no search.
  pub find?-append_other :
      (p : A → Bool) (xs : List A) (a : A) → p a ≡ false → find? p (xs ++ a ∷ []) ≡ find? p xs
  find?-append_other p [] a h = rw h refl
  find?-append_other p (x ∷ xs) a h = elim (Bool-cases (p x)) [
    | inl here ↦ rw here refl
    | inr later ↦ rw later (find?-append_other p xs a h)
  ]

  -- A row that is kept is still found.
  pub find?-filter :
      (p keep : A → Bool) (xs : List A) (a : A)
      → find? p xs ≡ some a
      → keep a ≡ true
      → find? p (filter keep xs) ≡ some a
  find?-filter p keep [] a e k = cc
  find?-filter p keep (x ∷ xs) a e k = ground (arith, find?-filter p keep xs a)

  -- What is not found is not found among fewer rows.
  pub find?-none-filter :
      (p keep : A → Bool) (xs : List A) → find? p xs ≡ none → find? p (filter keep xs) ≡ none
  find?-none-filter p keep [] h = refl
  find?-none-filter p keep (x ∷ xs) h = ground (arith, find?-none-filter p keep xs)

  -- Nothing is found where all that fits was removed.
  pub find?-filter-none :
      (p keep : A → Bool) (xs : List A)
      → All (λ x. p x ≡ true → keep x ≡ false) xs
      → find? p (filter keep xs) ≡ none
  find?-filter-none p keep [] h = refl
  find?-filter-none p keep (x ∷ xs) (q, h) = ground (arith, q, find?-filter-none p keep xs h)

  pub find?-All-false : (p : A → Bool) (xs : List A) → All (λ x. p x ≡ false) xs → find? p xs ≡ none
  find?-All-false p [] h = refl
  find?-All-false p (x ∷ xs) (q, h) = rw q (find?-All-false p xs h)

  pub find?-eq-none : (p : A → Bool) (xs : List A) → find? p xs ≡ none → All (λ x. p x ≡ false) xs
  find?-eq-none p [] h = tt
  find?-eq-none p (x ∷ xs) h = elim (Bool-cases (p x)) [
    | inl here ↦ cc (rw here at h)
    | inr later ↦ (later, find?-eq-none p xs (rw later at h))
  ]

  pub any-eq-false : (p : A → Bool) (xs : List A) → any p xs ≡ false → All (λ x. p x ≡ false) xs
  any-eq-false p [] h = tt
  any-eq-false p (x ∷ xs) h = ground (arith, any-eq-false p xs)

  -- What a row at the end adds to a search that failed is that row.
  pub find?-append_last :
      (p : A → Bool) (xs : List A) (a b : A)
      → find? p xs ≡ none
      → find? p (xs ++ a ∷ []) ≡ some b
      → a ≡ b
  find?-append_last p [] a b h e = elim (Bool-cases (p a)) [
    | inl here ↦ some_injective (rw here at e)
    | inr later ↦ cc (rw later at e)
  ]
  find?-append_last p (x ∷ xs) a b h e = elim (Bool-cases (p x)) [
    | inl here ↦ cc (rw here at h)
    | inr later ↦ find?-append_last p xs a b (rw later at h) (rw later at e)
  ]

  pub find?-any : (p : A → Bool) (xs : List A) (a : A) → find? p xs ≡ some a → any p xs ≡ true
  find?-any p [] a h = cc
  find?-any p (x ∷ xs) a h = ground (arith, find?-any p xs a)

  -- A change that the test does not see leaves the position of what is found.
  pub find?-map :
      (p : A → Bool) (f : A → A) (xs : List A)
      → All (λ x. p (f x) ≡ p x) xs
      → find? p (map f xs) ≡ Option.map f (find? p xs)
  find?-map p f [] h = refl
  find?-map p f (x ∷ xs) (q, h) = elim (Bool-cases (p x)) [
    | inl here ↦ rw (q, here)
    | inr later ↦ rw (q, later) (find?-map p f xs h)
  ]

  pub find?-any_of :
      (p q : A → Bool) (xs : List A) (a : A) → find? p xs ≡ some a → q a ≡ true → any q xs ≡ true
  find?-any_of p q [] a h k = cc
  find?-any_of p q (x ∷ xs) a h k = ground (arith, find?-any_of p q xs a)

module _ {ℓ κ μ} {A : Type ℓ} where
  pub All-both :
      (P : A → Type κ) (Q : A → Type μ) (xs : List A)
      → All P xs
      → All Q xs
      → All (λ x. P x × Q x) xs
  All-both P Q [] h k = tt
  All-both P Q (x ∷ xs) (p, h) (q, k) = ((p, q), All-both P Q xs h k)

-- A row of a table that passes a test makes `any` of the table pass it.
module _ {ℓ κ} {A : Type ℓ} {B : Type κ} (q : A → B → Bool) where
  pub All-any_self :
      (xs : List A) → All (λ x. (b : B) → q x b ≡ true → any (λ y. q y b) xs ≡ true) xs
  All-any_self [] = tt
  All-any_self (x ∷ xs) =
      (λ b h. ground arith, All-imp _ _ (λ y h b k. ground (arith, h b k)) xs (All-any_self xs))
