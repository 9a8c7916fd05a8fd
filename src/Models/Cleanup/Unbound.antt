-- ===== src/Models/Cleanup/Unbound.antt =====
-- Deleting access tokens that no refresh token has, or ID tokens that no access token has, changes no
-- other row.
use django_oauth_toolkit.Prelude.{
  ◌≡◌, refl, ◌∙◌, ap, inl, inr, Bool, true, false, not, ◌&&◌, List, [], ◌∷◌, map, arith, Bool-cases,
  points_to, filter, any, All, All-imp, All-any_self,
}
use django_oauth_toolkit.Models.Rows.{AccessToken, RefreshToken, IdToken}
use django_oauth_toolkit.Models.Database.{Database, detach, delete_access_where, delete_id_where}

module _ {ℓ} {A : Type ℓ} where
  any-none : (p : A → Bool) (xs : List A) → All (λ x. p x ≡ false) xs → any p xs ≡ false
  any-none p [] h = refl
  any-none p (x ∷ xs) (q, h) = ground (arith, any-none p xs h)

  filter-All :
      (p : A → Bool) (xs : List A) → All (λ x. p x ≡ false) xs → filter (λ x. not (p x)) xs ≡ xs
  filter-All p [] h = refl
  filter-All p (x ∷ xs) (q, h) = rw q (ap (λ l. x ∷ l) (filter-All p xs h))

  map-All : (f : A → A) (xs : List A) → All (λ x. f x ≡ x) xs → map f xs ≡ xs
  map-All f [] h = refl
  map-All f (x ∷ xs) (q, h) = cc (q, map-All f xs h)

-- Rows of the first table that a test picks are referred to by no row of the second.
abbrev Unreferred {ℓ κ} :
    {A : Type ℓ} {B : Type κ} → (B → A → Bool) → (A → Bool) → List A → List B → Type 0
Unreferred refers p xs ys = All (λ a. p a ≡ true → any (λ b. refers b a) ys ≡ false) xs

refers_none {ℓ κ} :
    {A : Type ℓ} {B : Type κ} (refers : B → A → Bool) (p : A → Bool) (xs : List A) (ys : List B)
    → Unreferred refers p xs ys
    → All (λ b. any (λ a. p a && refers b a) xs ≡ false) ys
refers_none {A} refers p xs ys h =
    All-imp _ _
      (λ b self.
        any-none (λ a. p a && refers b a) xs
          (All-imp _ _
            (λ a free. elim (Bool-cases (p a)) [
              | inr kept ↦ rw kept refl
              | inl gone ↦ elim (Bool-cases (refers b a)) [
                | inr miss ↦ rw (gone, miss) refl
                | inl hit ↦ cc (free gone, self a hit)
              ]
            ])
            xs h))
      ys (All-any_self refers ys)

abbrev pub bound_to : RefreshToken → AccessToken → Bool
bound_to r a = points_to r.access_token a.pk

abbrev pub issued_with : AccessToken → IdToken → Bool
issued_with a i = points_to a.id_token i.pk

pub delete_access_unbound :
    (p : AccessToken → Bool) (db : Database)
    → All (λ a. p a ≡ true → any (λ r. bound_to r a) db.refresh_tokens ≡ false) db.access_tokens
    → delete_access_where p db
      ≡ record db { access_tokens = filter (λ a. not (p a)) db.access_tokens }
unfolding delete_access_where
delete_access_unbound p db h =
    ap
      (λ l. record db {
        access_tokens = filter (λ a. not (p a)) db.access_tokens;
        refresh_tokens = l;
      })
      (map-All (detach p db.access_tokens) db.refresh_tokens (
        All-imp _ _ (λ r e. rw e refl) db.refresh_tokens
          (refers_none bound_to p db.access_tokens db.refresh_tokens h)))

pub delete_id_unused :
    (p : IdToken → Bool) (db : Database)
    → All (λ i. p i ≡ true → any (λ a. issued_with a i) db.access_tokens ≡ false) db.id_tokens
    → delete_id_where p db ≡ record db { id_tokens = filter (λ i. not (p i)) db.id_tokens }
unfolding delete_id_where
delete_id_unused p db h =
    let gone = λ (a : AccessToken). any (λ i. p i && points_to a.id_token i.pk) db.id_tokens in
    let kept = refers_none issued_with p db.id_tokens db.access_tokens h in
    let middle = record db { id_tokens = filter (λ i. not (p i)) db.id_tokens } in
    delete_access_unbound gone middle (All-imp _ _ (λ a e f. cc (e, f)) db.access_tokens kept)
    ∙ ap (λ l. record middle { access_tokens = l }) (filter-All gone db.access_tokens kept)
