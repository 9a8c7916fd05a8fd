-- ===== src/Prelude/Tests.antt =====
-- Boolean tests on the native numbers and on optional keys, and the conditional.
use Prim.Native.Nat.{ℕ, compare, Ordering}
use mathlib.Core.Path.{◌≡◌, refl, ap}
use mathlib.Core.Logic.{◌↔◌, ◌⊎◌, inl, inr}
use mathlib.Core.Bool.{Bool, true, false, ◌||◌}
use mathlib.Core.Option.{Option, none, some}
use native.Mathlib.Omega.{arith}

abbrev pub ltb : ℕ → ℕ → Bool
ltb a b = elim (compare a b) [ Ordering.lt ↦ true | _ ↦ false ]

abbrev pub leb : ℕ → ℕ → Bool
leb a b = elim (compare a b) [ Ordering.gt ↦ false | _ ↦ true ]

infix 50 ◌==◌
abbrev pub ◌==◌ : ℕ → ℕ → Bool
a == b = elim (compare a b) [ Ordering.eq ↦ true | _ ↦ false ]

infix 1 if◌then◌else◌
abbrev pub if◌then◌else◌ {ℓ} : {A : Type ℓ} → Bool → A → A → A
if true then x else y = x
if false then x else y = y

pub ==_iff : (a b : ℕ) → ((a == b) ≡ true) ↔ (a ≡ b)
==_iff a b = ground arith

pub ==_refl : (a : ℕ) → (a == a) ≡ true
==_refl a = ground arith

pub Bool-cases : (b : Bool) → (b ≡ true) ⊎ (b ≡ false)
Bool-cases true = inl refl
Bool-cases false = inr refl

pub or_false : (a b : Bool) → (a || b) ≡ false → (a ≡ false) × (b ≡ false)
or_false true b h = cc
or_false false b h = (refl, h)

module _ {ℓ} {A : Type ℓ} where
  pub if-cases :
      (b : Bool) (x y : A) {z : A}
      → (if b then x else y) ≡ z
      → ((b ≡ true) × (x ≡ z)) ⊎ ((b ≡ false) × (y ≡ z))
  if-cases true x y h = inl (refl, h)
  if-cases false x y h = inr (refl, h)

  pub Option-cases : (o : Option A) → (o ≡ none) ⊎ ((a : A) × (o ≡ some a))
  Option-cases none = inl refl
  Option-cases (some a) = inr (a, refl)

  abbrev pub is_some : Option A → Bool
  is_some none = false
  is_some (some a) = true

  pub is_some-get : (o : Option A) → is_some o ≡ true → (a : A) × (o ≡ some a)
  is_some-get none h = cc
  is_some-get (some a) h = (a, refl)

-- A foreign key column holds the given primary key; null holds none.
abbrev pub points_to : Option ℕ → ℕ → Bool
points_to none k = false
points_to (some j) k = j == k

pub some_injective {ℓ} : {A : Type ℓ} {a b : A} → some a ≡ some b → a ≡ b
some_injective h = cc

pub points_to-eq : (o : Option ℕ) (k : ℕ) → points_to o k ≡ true → o ≡ some k
points_to-eq none k h = cc
points_to-eq (some j) k h = ap some (ground arith)
