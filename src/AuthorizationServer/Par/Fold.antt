-- ===== src/AuthorizationServer/Par/Fold.antt =====
-- What a source adds to the accumulators of `collect_pushed_parameters`.
use django_oauth_toolkit.Prelude.{
  String, Bool, true, false, not, ◌&&◌, ◌||◌, ◌≡◌, refl, sym, ◌∙◌, ap, ◌⊎◌, inl, inr, Option, none,
  some, List, [], ◌∷◌, ◌++◌, arith, str_eq, eq_iff, Bool-cases, if◌then◌else◌, elem,
}
use django_oauth_toolkit.Models.Rows.{Parameter, text}
use django_oauth_toolkit.AuthorizationServer.Http.{Query, getlist, get_last, keys, get_item}
use django_oauth_toolkit.AuthorizationServer.Http.Keys.{
  str_eq_sym, get_item-set_item, IsDistinct, getlist-none,
}
use django_oauth_toolkit.AuthorizationServer.Par.{
  Parameters, client_auth_parameters, Collected, put, collect_key, collect_keys,
}

-- A parameter that is neither a credential nor a resource.
abbrev pub is_plain_key : String → Bool
is_plain_key key = not (elem key client_auth_parameters) && not (str_eq key "resource")

abbrev pub over : Option String → Option Parameter → Option Parameter
over none o = o
over (some v) o = some (text v)

pub get_item-put :
    (k j : String) (o : Option String) (d : Parameters)
    → get_item k (put j o d) ≡ (if str_eq j k then over o (get_item k d) else get_item k d)
get_item-put k j none d = ground arith
get_item-put k j (some v) d = get_item-set_item k j (text v) d

-- The three kinds of key.
module _ (source : Query) (j : String) (c : Collected) where
  pub not_resource : elem j client_auth_parameters ≡ true → str_eq j "resource" ≡ false
  not_resource auth = elim (Bool-cases (str_eq j "resource")) [
    | inr other ↦ other
    | inl same ↦
        let e : j ≡ "resource" = (eq_iff j "resource").0 same in
        let no : elem "resource" client_auth_parameters ≡ true =
          ap (λ k. elem k client_auth_parameters) (sym e) ∙ auth in
        cc
  ]

  pub collect_key-cases :
      ((is_plain_key j ≡ false) × (str_eq j "resource" ≡ false) × (collect_key source j c ≡ c))
      ⊎ ((is_plain_key j ≡ false)
          × (str_eq j "resource" ≡ true)
          × (collect_key source j c
              ≡ record c { resource_values = c.resource_values ++ getlist source j }))
      ⊎ ((is_plain_key j ≡ true)
          × (str_eq j "resource" ≡ false)
          × (collect_key source j c
              ≡ record c { parameters = put j (get_last source j) c.parameters }))
  unfolding collect_key
  collect_key-cases = elim (Bool-cases (elem j client_auth_parameters)) [
    | inl auth ↦ inl (rw auth refl, not_resource auth, rw auth refl)
    | inr free ↦ elim (Bool-cases (str_eq j "resource")) [
      | inl res ↦ inr (inl (rw (free, res) refl, res, rw (free, res) refl))
      | inr other ↦ inr (inr (rw (free, other) refl, other, rw (free, other) refl))
    ]
  ]

pub differs : (j k : String) → is_plain_key j ≡ true → is_plain_key k ≡ false → str_eq j k ≡ false
differs j k p q = elim (Bool-cases (str_eq j k)) [
  | inr other ↦ other
  | inl same ↦
      let e : j ≡ k = (eq_iff j k).0 same in
      let both : is_plain_key j ≡ is_plain_key k = ap is_plain_key e in cc
]

-- A key that is not plain is never written.
module _ (source : Query) (k : String) (special : is_plain_key k ≡ false) where
  special-collect_key :
      (j : String) (c : Collected)
      → get_item k (collect_key source j c).parameters ≡ get_item k c.parameters
  unfolding collect_key
  special-collect_key j c = elim (collect_key-cases source j c) [
    | inl (x, y, e) ↦ ap (λ a. get_item k a.parameters) e
    | inr (inl (x, y, e)) ↦ ap (λ a. get_item k a.parameters) e
    | inr (inr (p, y, e)) ↦
        ap (λ a. get_item k a.parameters) e
        ∙ get_item-put k j (get_last source j) c.parameters
        ∙ ap
            (λ b.
              if b
              then over (get_last source j) (get_item k c.parameters)
              else get_item k c.parameters)
            (differs j k p special)
  ]

  pub special-collect_keys :
      (ks : List String) (c : Collected)
      → get_item k (collect_keys source ks c).parameters ≡ get_item k c.parameters
  unfolding collect_keys
  special-collect_keys [] c = refl
  special-collect_keys (j ∷ ks) c =
      special-collect_keys ks (collect_key source j c) ∙ special-collect_key j c

module _ (source : Query) (k : String) (plain : is_plain_key k ≡ true) where
  skipped :
      (j : String) (c : Collected)
      → is_plain_key j ≡ false
      → get_item k c.parameters ≡ (
          if str_eq j k
          then over (get_last source k) (get_item k c.parameters)
          else get_item k c.parameters)
  skipped j c x = rw (str_eq_sym j k ∙ differs k j plain x) refl

  written :
      (j : String) (c : Collected)
      → (if str_eq j k
          then over (get_last source j) (get_item k c.parameters)
          else get_item k c.parameters)
        ≡ (if str_eq j k
            then over (get_last source k) (get_item k c.parameters)
            else get_item k c.parameters)
  written j c = elim (Bool-cases (str_eq j k)) [
    | inr other ↦ rw other refl
    | inl same ↦ let e : j ≡ k = (eq_iff j k).0 same in rw e refl
  ]

  plain-collect_key :
      (j : String) (c : Collected)
      → get_item k (collect_key source j c).parameters ≡ (
          if str_eq j k
          then over (get_last source k) (get_item k c.parameters)
          else get_item k c.parameters)
  unfolding collect_key
  plain-collect_key j c = elim (collect_key-cases source j c) [
    | inl (x, y, e) ↦ ap (λ a. get_item k a.parameters) e ∙ skipped j c x
    | inr (inl (x, y, e)) ↦ ap (λ a. get_item k a.parameters) e ∙ skipped j c x
    | inr (inr (p, y, e)) ↦
        ap (λ a. get_item k a.parameters) e
        ∙ get_item-put k j (get_last source j) c.parameters
        ∙ written j c
  ]

  over-over : (v : Option String) (o : Option Parameter) → over v (over v o) ≡ over v o
  over-over none o = refl
  over-over (some v) o = refl

  twice :
      (v : Option String) (o : Option Parameter) (b d : Bool)
      → (if b then over v (if d then over v o else o) else if d then over v o else o)
        ≡ (if d || b then over v o else o)
  twice v o true true = over-over v o
  twice v o true false = refl
  twice v o false true = refl
  twice v o false false = refl

  pub plain-collect_keys :
      (ks : List String) (c : Collected)
      → get_item k (collect_keys source ks c).parameters ≡ (
          if elem k ks
          then over (get_last source k) (get_item k c.parameters)
          else get_item k c.parameters)
  unfolding collect_keys
  plain-collect_keys [] c = refl
  plain-collect_keys (j ∷ ks) c =
      plain-collect_keys ks (collect_key source j c)
      ∙ rw (plain-collect_key j c)
          (twice (get_last source k) (get_item k c.parameters) (elem k ks) (str_eq j k))

append_nil {ℓ} : {A : Type ℓ} (xs : List A) → xs ++ [] ≡ xs
append_nil [] = refl
append_nil (x ∷ xs) = ap (λ l. x ∷ l) (append_nil xs)

module _ (source : Query) where
  once :
      (rs vs : List String) (b d : Bool)
      → (d ≡ true → b ≡ false)
      → (rs ++ (if d then vs else [])) ++ (if b then vs else []) ≡ rs ++ (if d || b then vs else [])
  once rs vs true true h = cc (h refl)
  once rs vs false true h = append_nil (rs ++ vs)
  once rs vs true false h = ap (λ l. l ++ vs) (append_nil rs)
  once rs vs false false h = append_nil (rs ++ [])

  resources-collect_key :
      (j : String) (c : Collected)
      → (collect_key source j c).resource_values
        ≡ c.resource_values ++ (if str_eq j "resource" then getlist source "resource" else [])
  resources-collect_key j c = elim (collect_key-cases source j c) [
    | inl (x, other, e) ↦
        rw other (ap (λ a. a.resource_values) e ∙ sym (append_nil c.resource_values))
    | inr (inr (x, other, e)) ↦
        rw other (ap (λ a. a.resource_values) e ∙ sym (append_nil c.resource_values))
    | inr (inl (x, same, e)) ↦ rw same (
        ap (λ a. a.resource_values) e
        ∙ ap (λ k. c.resource_values ++ getlist source k) ((eq_iff j "resource").0 same))
  ]

  pub resources-collect_keys :
      (ks : List String) (c : Collected)
      → IsDistinct ks
      → (collect_keys source ks c).resource_values
        ≡ c.resource_values ++ (if elem "resource" ks then getlist source "resource" else [])
  unfolding collect_keys
  resources-collect_keys [] c d = sym (append_nil c.resource_values)
  resources-collect_keys (j ∷ ks) c (new, d) =
      resources-collect_keys ks (collect_key source j c) d
      ∙ rw (resources-collect_key j c) (
          once c.resource_values (getlist source "resource") (elem "resource" ks)
            (str_eq j "resource")
            (λ same. ap (λ k. elem k ks) (sym ((eq_iff j "resource").0 same)) ∙ new))

pub over-keys :
    (k : String) (q : Query) (o : Option Parameter)
    → (if elem k (keys q) then over (get_last q k) o else o) ≡ over (get_last q k) o
over-keys k q o = elim (Bool-cases (elem k (keys q))) [
  | inl here ↦ rw here refl
  | inr gone ↦ rw (gone, getlist-none k q gone) refl
]
