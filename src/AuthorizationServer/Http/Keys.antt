-- ===== src/AuthorizationServer/Http/Keys.antt =====
-- The keys of a query, and a dictionary after an assignment.
use django_oauth_toolkit.Prelude.{
  String, Bool, false, not, ◌||◌, ◌≡◌, refl, sym, ◌∙◌, ap, inl, inr, some, List, [], ◌∷◌, arith,
  str_eq, eq_iff, Bool-cases, if◌then◌else◌, or_false, filter, elem,
}
use django_oauth_toolkit.AuthorizationServer.Http.{Query, getlist, keys, set_item, get_item}

pub str_eq_sym : (s t : String) → str_eq s t ≡ str_eq t s
str_eq_sym s t = elim (Bool-cases (str_eq s t)) [
  | inl same ↦ let e : s ≡ t = (eq_iff s t).0 same in cc
  | inr other ↦ elim (Bool-cases (str_eq t s)) [
    | inr miss ↦ cc
    | inl hit ↦ let e : t ≡ s = (eq_iff t s).0 hit in cc
  ]
]

module _ {ℓ} {A : Type ℓ} where
  pub get_item-set_item :
      (k j : String) (v : A) (d : List (String × A))
      → get_item k (set_item j v d) ≡ (if str_eq j k then some v else get_item k d)
  get_item-set_item k j v [] = refl
  get_item-set_item k j v ((i, w) ∷ d) = elim (Bool-cases (str_eq i j)) [
    | inl same ↦ let e : i ≡ j = (eq_iff i j).0 same in rw same (rw e (ground arith))
    | inr other ↦ elim (Bool-cases (str_eq i k)) [
      | inr miss ↦ rw (other, miss) (get_item-set_item k j v d)
      | inl hit ↦
          let e : i ≡ k = (eq_iff i k).0 hit in
          let not_j : str_eq j k ≡ false = ap (str_eq j) (sym e) ∙ str_eq_sym j i ∙ other in
          rw (other, hit, not_j) refl
    ]
  ]

-- Each key stands once.
abbrev pub IsDistinct : List String → Type 0
IsDistinct [] = Unit
IsDistinct (k ∷ ks) = (elem k ks ≡ false) × IsDistinct ks

elem-filter :
    (k : String) (p : String → Bool) (ks : List String)
    → elem k ks ≡ false
    → elem k (filter p ks) ≡ false
elem-filter k p [] h = refl
elem-filter k p (j ∷ ks) h = ground (arith, elem-filter k p ks)

elem-filter_self :
    (k : String) (ks : List String) → elem k (filter (λ j. not (str_eq k j)) ks) ≡ false
elem-filter_self k [] = refl
elem-filter_self k (j ∷ ks) = ground (arith, elem-filter_self k ks, str_eq_sym j k)

filter-IsDistinct :
    (p : String → Bool) (ks : List String) → IsDistinct ks → IsDistinct (filter p ks)
filter-IsDistinct p [] d = tt
filter-IsDistinct p (k ∷ ks) (new, d) = elim (Bool-cases (p k)) [
  | inl kept ↦ rw kept (elem-filter k p ks new, filter-IsDistinct p ks d)
  | inr gone ↦ rw gone (filter-IsDistinct p ks d)
]

pub keys-IsDistinct : (q : Query) → IsDistinct (keys q)
keys-IsDistinct [] = tt
keys-IsDistinct ((k, v) ∷ q) =
    (elem-filter_self k (keys q), filter-IsDistinct _ (keys q) (keys-IsDistinct q))

-- A key that does not stand there has no values.
elem-filter_other :
    (j k : String) (ks : List String)
    → str_eq j k ≡ false
    → elem k (filter (λ i. not (str_eq j i)) ks) ≡ elem k ks
elem-filter_other j k [] h = refl
elem-filter_other j k (i ∷ ks) h = elim (Bool-cases (str_eq j i)) [
  | inr other ↦ rw other (ap (λ b. str_eq i k || b) (elem-filter_other j k ks h))
  | inl same ↦
      let e : j ≡ i = (eq_iff j i).0 same in
      let miss : str_eq i k ≡ false = ap (λ x. str_eq x k) (sym e) ∙ h in
      rw (same, miss) (elem-filter_other j k ks h)
]

pub getlist-none : (k : String) (q : Query) → elem k (keys q) ≡ false → getlist q k ≡ []
getlist-none k [] h = refl
getlist-none k ((j, v) ∷ q) h =
    let (other, rest) = or_false (str_eq j k) _ h in
    rw other (getlist-none k q (sym (elem-filter_other j k (keys q) other) ∙ rest))

pub getlist-keys :
    (k : String) (q : Query) → (if elem k (keys q) then getlist q k else []) ≡ getlist q k
getlist-keys k q = elim (Bool-cases (elem k (keys q))) [
  | inl here ↦ rw here refl
  | inr gone ↦ rw gone (sym (getlist-none k q gone))
]
