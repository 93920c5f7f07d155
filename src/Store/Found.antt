-- ===== src/Store/Found.antt =====
-- The first row that passes a test, and statements on other rows.
use soft_serve.Base.{
  ◌≡◌, refl, Bool, true, false, not, none, some, List, [], ◌∷◌, ◌++◌, any, find, select, Bool-cases,
  inl, inr, update, arith,
}

pub update_none :
    {A : Type 0} (q : A → Bool) (f : A → A) (xs : List A) → any q xs ≡ false → update q f xs ≡ xs
update_none q f [] h = refl
update_none q f (x ∷ xs) h = ground (arith, update_none q f xs)

pub some_injective : {A : Type 0} {a b : A} → some a ≡ some b → a ≡ b
some_injective h = ground (arith, h)

module _ {A : Type 0} (p : A → Bool) where
  pub find-append : (xs ys : List A) (x : A) → find p xs ≡ some x → find p (xs ++ ys) ≡ some x
  find-append [] ys x h = absurd (ground arith)
  find-append (y ∷ xs) ys x h = ground (arith, find-append xs ys x)

  pub find-append_none :
      (xs : List A) (x : A) → any p xs ≡ false → p x ≡ true → find p (xs ++ x ∷ []) ≡ some x
  find-append_none [] x h e = rw e
  find-append_none (y ∷ xs) x h e = ground (arith, find-append_none xs x)

  pub find-any : (xs : List A) (x : A) → find p xs ≡ some x → any p xs ≡ true
  find-any [] x h = absurd (ground arith)
  find-any (y ∷ xs) x h = ground (arith, find-any xs x)

  pub find_passes : (xs : List A) (x : A) → find p xs ≡ some x → p x ≡ true
  find_passes [] x h = absurd (ground arith)
  find_passes (y ∷ xs) x h = elim (Bool-cases (p y)) [
    | inl yes' ↦ rw (some_injective (rw yes' at h)) at yes'
    | inr no' ↦ find_passes xs x (rw no' at h)
  ]

  pub find-none : (xs : List A) → find p xs ≡ none → any p xs ≡ false
  find-none [] h = refl
  find-none (y ∷ xs) h = ground (arith, find-none xs)

  pub find-update :
      (f : A → A)
      → ((x : A) → p (f x) ≡ p x)
      → (xs : List A) (x : A) → find p xs ≡ some x
      → find p (update p f xs) ≡ some (f x)
  find-update f k [] x h = absurd (ground arith)
  find-update f k (y ∷ xs) x h = ground (arith, k y, find-update f k xs x)

  -- the first row of a name gets a new name
  pub find-rename :
      (q : A → Bool) (f : A → A)
      → ((x : A) → q (f x) ≡ true)
      → (xs : List A) (x : A) → any q xs ≡ false
      → find p xs ≡ some x
      → find q (update p f xs) ≡ some (f x)
  find-rename q f k [] x n h = absurd (ground arith)
  find-rename q f k (y ∷ xs) x n h = ground (arith, k y, find-rename q f k xs x)

  pub any-rename :
      (f : A → A) → ((x : A) → p (f x) ≡ false) → (xs : List A) → any p (update p f xs) ≡ false
  any-rename f k [] = refl
  any-rename f k (x ∷ xs) = ground (arith, k x, any-rename f k xs)

  pub any-select : (xs : List A) → any p (select (λ x. not (p x)) xs) ≡ false
  any-select [] = refl
  any-select (x ∷ xs) = ground (arith, any-select xs)

  module _ (q : A → Bool) (apart : (x : A) → q x ≡ true → p x ≡ false) where
    pub find-select_other : (xs : List A) → find p (select (λ x. not (q x)) xs) ≡ find p xs
    find-select_other [] = refl
    find-select_other (x ∷ xs) = ground (arith, apart x, find-select_other xs)

    pub find-update_other :
        (f : A → A)
        → ((x : A) → q x ≡ true → p (f x) ≡ false)
        → (xs : List A) → find p (update q f xs) ≡ find p xs
    find-update_other f k [] = refl
    find-update_other f k (x ∷ xs) = ground (arith, apart x, k x, find-update_other f k xs)
