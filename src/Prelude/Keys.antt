-- ===== src/Prelude/Keys.antt =====
-- Tables whose rows are found by their own primary keys, so that no two rows share one.
use mathlib.Core.Path.{◌≡◌, ap, ◌∙◌}
use mathlib.Core.Bool.{Bool, true}
use mathlib.Core.Option
use mathlib.Core.Option.{Option, none, some}
use mathlib.Core.List.{List, [], ◌∷◌, ◌++◌, map}
use Prim.Native.Nat.{ℕ, ◌<◌}
use native.Mathlib.Omega.{arith}
use django_oauth_toolkit.Prelude.Tests.{◌==◌, ==_refl}
use django_oauth_toolkit.Prelude.Lists.{filter, find?, All, All-append_one}
use django_oauth_toolkit.Prelude.Tables.{
  All-map, All-imp, All-total, find?-map, find?-filter, find?-append, find?-append_new,
}

module _ {ℓ κ} {A : Type ℓ} (P : A → Type κ) (p : A → Bool) where
  pub All-filter_kept : (xs : List A) → All P xs → All (λ x. P x × (p x ≡ true)) (filter p xs)
  All-filter_kept [] h = tt
  All-filter_kept (x ∷ xs) (q, h) = ground (arith, All-filter_kept xs h)

module _ {ℓ} {A : Type ℓ} (key : A → ℕ) where
  abbrev pub IsKeyed : List A → Type ℓ
  IsKeyed xs = All (λ x. find? (λ y. key y == key x) xs ≡ some x) xs

  pub map-IsKeyed :
      (f : A → A) → ((x : A) → key (f x) ≡ key x) → (xs : List A) → IsKeyed xs → IsKeyed (map f xs)
  map-IsKeyed f h xs k =
      All-map _ _ f
        (λ x found.
          ap (λ j. find? (λ y. key y == j) (map f xs)) (h x)
          ∙ find?-map _ f xs (All-total _ (λ y. ap (λ (j : ℕ). j == key x) (h y)) xs)
          ∙ ap (Option.map f) found)
        xs k

  pub filter-IsKeyed : (p : A → Bool) (xs : List A) → IsKeyed xs → IsKeyed (filter p xs)
  filter-IsKeyed p xs k =
      All-imp _ _ (λ x h. find?-filter _ p xs x h.0 h.1) (filter p xs) (All-filter_kept _ p xs k)

  pub append_one-IsKeyed :
      (xs : List A) (a : A) (bound : ℕ)
      → All (λ x. key x < bound) xs
      → key a ≡ bound
      → IsKeyed xs
      → IsKeyed (xs ++ a ∷ [])
  append_one-IsKeyed xs a bound fresh new k =
      All-append_one _ xs a (All-imp _ _ (λ x found. find?-append _ xs (a ∷ []) x found) xs k)
        (find?-append_new _ xs a (All-imp _ _ (λ x h. ground arith) xs fresh) (==_refl (key a)))
