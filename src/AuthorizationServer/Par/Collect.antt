-- ===== src/AuthorizationServer/Par/Collect.antt =====
-- What `collect_pushed_parameters` stores under a key.
use django_oauth_toolkit.Prelude.{
  String, true, false, ◌≡◌, refl, ◌∙◌, ap, inl, inr, Option, none, some, List, [], ◌∷◌, ◌++◌, arith,
  str_eq, eq_iff, Bool-cases, if◌then◌else◌, elem,
}
use django_oauth_toolkit.Models.Rows.{Parameter, texts}
use django_oauth_toolkit.AuthorizationServer.Http.{
  HttpRequest, getlist, get_last, keys, set_item, get_item,
}
use django_oauth_toolkit.AuthorizationServer.Http.Keys.{
  str_eq_sym, get_item-set_item, keys-IsDistinct, getlist-keys,
}
use django_oauth_toolkit.AuthorizationServer.Par.{
  Parameters, client_auth_parameters, Collected, collect_keys, with_resources,
  collect_pushed_parameters,
}
use django_oauth_toolkit.AuthorizationServer.Par.Fold.{
  is_plain_key, over, not_resource, special-collect_keys, plain-collect_keys,
  resources-collect_keys, over-keys,
}

-- The value that a request pushes under a key: none for a credential, all the resources, or the last
-- value of the body or else of the query.
abbrev several : List String → Option Parameter
several [] = none
several (r ∷ rs) = some (texts (r ∷ rs))

abbrev pub pushed_value : HttpRequest → String → Option Parameter
pushed_value request key =
    if elem key client_auth_parameters
    then none
    else if str_eq key "resource"
    then several (getlist request.get key ++ getlist request.post key)
    else over (get_last request.post key) (over (get_last request.get key) none)

stored_resources :
    (k : String) (rs : List String) (d : Parameters)
    → get_item k (elim rs [ [] ↦ d | r ∷ rs ↦ set_item "resource" (texts (r ∷ rs)) d ]) ≡ (
        if str_eq "resource" k
        then (elim rs [ [] ↦ get_item k d | r ∷ rs ↦ some (texts (r ∷ rs)) ])
        else get_item k d)
stored_resources k [] d = ground arith
stored_resources k (r ∷ rs) d = get_item-set_item k "resource" (texts (r ∷ rs)) d

-- The two accumulators at the end.
abbrev collected : HttpRequest → Collected
collected request =
    collect_keys request.post (keys request.post) (
      collect_keys request.get (keys request.get)
        (record { parameters = []; resource_values = [] }))

collected_resources :
    (request : HttpRequest)
    → (collected request).resource_values
      ≡ getlist request.get "resource" ++ getlist request.post "resource"
collected_resources request =
    resources-collect_keys request.post (keys request.post) _ (keys-IsDistinct request.post)
    ∙ ap
        (λ l.
          l
          ++ (if elem "resource" (keys request.post) then getlist request.post "resource" else []))
        (resources-collect_keys request.get (keys request.get) _ (keys-IsDistinct request.get)
          ∙ getlist-keys "resource" request.get)
    ∙ ap (λ l. getlist request.get "resource" ++ l) (getlist-keys "resource" request.post)

collected_plain :
    (request : HttpRequest) (k : String)
    → is_plain_key k ≡ true
    → get_item k (collected request).parameters
      ≡ over (get_last request.post k) (over (get_last request.get k) none)
collected_plain request k plain =
    plain-collect_keys request.post k plain (keys request.post) _
    ∙ over-keys k request.post _
    ∙ ap (over (get_last request.post k))
        (plain-collect_keys request.get k plain (keys request.get) _ ∙ over-keys k request.get none)

collected_special :
    (request : HttpRequest) (k : String)
    → is_plain_key k ≡ false
    → get_item k (collected request).parameters ≡ none
collected_special request k special =
    special-collect_keys request.post k special (keys request.post) _
    ∙ special-collect_keys request.get k special (keys request.get) _

listed :
    (o : Option Parameter) (rs : List String)
    → o ≡ none
    → (elim rs [ [] ↦ o | r ∷ rs ↦ some (texts (r ∷ rs)) ]) ≡ several rs
listed o [] h = h
listed o (r ∷ rs) h = refl

lookup_cases :
    (request : HttpRequest) (key : String)
    → (if str_eq "resource" key
        then (elim (collected request).resource_values [
          | [] ↦ get_item key (collected request).parameters
          | r ∷ rs ↦ some (texts (r ∷ rs))
        ])
        else get_item key (collected request).parameters)
      ≡ pushed_value request key
lookup_cases request key = elim (Bool-cases (elem key client_auth_parameters)) [
  | inl auth ↦
      let other = not_resource request.get key (collected request) auth in
      rw (str_eq_sym "resource" key ∙ other, auth) (collected_special request key (rw auth refl))
  | inr free ↦ elim (Bool-cases (str_eq key "resource")) [
    | inl same ↦
        let e : key ≡ "resource" = (eq_iff key "resource").0 same in
        rw (str_eq_sym "resource" key ∙ same, free, same)
          (listed _ _ (collected_special request key (rw (free, same) refl))
            ∙ ap several (rw e (collected_resources request)))
    | inr other ↦
        rw (str_eq_sym "resource" key ∙ other, free, other)
          (collected_plain request key (rw (free, other) refl))
  ]
]

-- Under each key, collect_pushed_parameters stores nothing for a credential, all resources of query
-- and body, and otherwise the last value of the body or else of the query.
pub collect_pushed_parameters-lookup :
    (request : HttpRequest) (key : String)
    → get_item key (collect_pushed_parameters request) ≡ pushed_value request key
unfolding collect_pushed_parameters with_resources
collect_pushed_parameters-lookup request key =
    stored_resources key (collected request).resource_values (collected request).parameters
    ∙ lookup_cases request key
