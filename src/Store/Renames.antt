-- ===== src/Store/Renames.antt =====
-- The UPDATE of a unique text column: usernames and names of repositories.
use soft_serve.Base.{
  ◌≡◌, refl, ap, ◌≢◌, Bool, true, false, not, ◌&&◌, List, [], ◌∷◌, Text, text_eq, text_eq_iff, All,
  any, update, arith, if◌then◌else◌, Bool-cases, inl, inr,
}
use soft_serve.Store.Rows.{Distinct, Distinct-update}
use soft_serve.Store.Found.{update_none}

module _ {A : Type 0} (name : A → Text) (old new : Text) (f : A → A)
    (renames : (x : A) → name (f x) ≡ new) where
  abbrev same_name : A → A → Bool
  same_name x y = text_eq (name x) (name y)

  abbrev is_old : A → Bool
  is_old x = text_eq (name x) old

  others_not_old :
      (x : A) (xs : List A)
      → name x ≡ old
      → All (λ y. same_name x y ≡ false) xs
      → any is_old xs ≡ false
  others_not_old x [] e h = refl
  others_not_old x (y ∷ xs) e h = ground (
    arith,
    others_not_old x xs e h.1,
    h.0,
    text_eq_iff (name x) (name y),
    text_eq_iff (name y) old,
  )

  new_differs :
      (xs : List A)
      → any (λ x. text_eq (name x) new) xs ≡ false
      → (x : A) → name x ≡ new
      → All (λ y. same_name x y ≡ false) xs
  new_differs [] h x e = tt
  new_differs (y ∷ xs) h x e = (
    ground (arith, text_eq_iff (name x) (name y), text_eq_iff (name y) new),
    new_differs xs (ground arith) x e,
  )

  still_differs :
      (x : A) (xs : List A)
      → name x ≢ new
      → All (λ y. same_name x y ≡ false) xs
      → All (λ y. same_name x y ≡ false) (update is_old f xs)
  still_differs x [] n h = tt
  still_differs x (y ∷ xs) n h =
      (ground (arith, h.0, renames y, text_eq_iff (name x) (name (f y))), still_differs x xs n h.1)

  -- A row gets a name that no row has.
  pub Distinct-rename :
      (xs : List A)
      → any (λ x. text_eq (name x) new) xs ≡ false
      → Distinct same_name xs
      → Distinct same_name (update is_old f xs)
  Distinct-rename [] h d = tt
  Distinct-rename (x ∷ xs) h d = elim (Bool-cases (is_old x)) [
    | inl hit ↦
        rw
          (
            hit,
            update_none is_old f xs (others_not_old x xs ((text_eq_iff (name x) old).0 hit) d.0),
          )
          (new_differs xs (ground arith) (f x) (renames x), d.1)
    | inr miss ↦ rw miss (
      still_differs x xs (λ e. ground (arith, text_eq_iff (name x) new)) d.0,
      Distinct-rename xs (ground arith) d.1,
    )
  ]

  abbrev rename : A → A
  rename x = if is_old x then f x else x

  update-rename : (xs : List A) → update is_old f xs ≡ update (λ _. true) rename xs
  update-rename [] = refl
  update-rename (x ∷ xs) = ground (arith, update-rename xs)

  -- A row gets the name that it has.
  pub Distinct-rename_self :
      (xs : List A) → old ≡ new → Distinct same_name xs → Distinct same_name (update is_old f xs)
  Distinct-rename_self xs e d =
      rw (update-rename xs) (Distinct-update same_name (λ _. true) rename left right xs d)
    where
      same : (x : A) → name (rename x) ≡ name x
      same x = ground (arith, renames x, text_eq_iff (name x) old)

      left : (x y : A) → same_name (rename x) y ≡ same_name x y
      left x y = ap (λ t. text_eq t (name y)) (same x)

      right : (x y : A) → same_name x (rename y) ≡ same_name x y
      right x y = ap (λ t. text_eq (name x) t) (same y)

  -- the UPDATE of a unique column, once its constraint has passed
  pub Distinct-update_name :
      (xs : List A)
      → (not (text_eq old new) && any is_old xs && any (λ x. text_eq (name x) new) xs) ≡ false
      → Distinct same_name xs
      → Distinct same_name (update is_old f xs)
  Distinct-update_name xs h d = elim (Bool-cases (text_eq old new)) [
    | inl e ↦ Distinct-rename_self xs ((text_eq_iff old new).0 e) d
    | inr n ↦ elim (Bool-cases (any is_old xs)) [
      | inl some' ↦ Distinct-rename xs (ground arith) d
      | inr none' ↦ rw (update_none is_old f xs none') d
    ]
  ]
