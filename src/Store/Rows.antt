-- ===== src/Store/Rows.antt =====
-- Distinct keys and valid references in lists of rows, under inserts, updates and deletes.
use mathlib.Core.List.{map-append}
use soft_serve.Base.{
  ℕ, ◌≡◌, refl, Bool, true, false, not, List, [], ◌∷◌, ◌++◌, map, All, All-append, All-select, any,
  contains, contains-append, select, update, arith, Bool-cases, inl, inr,
}

module _ {A : Type 0} (same : A → A → Bool) where
  -- no two rows have the same key
  abbrev pub Distinct : List A → Type 0
  Distinct [] = Unit
  Distinct (x ∷ xs) = All (λ y. same x y ≡ false) xs × Distinct xs

  pub Distinct-append :
      (xs : List A) (x : A) → any (λ y. same y x) xs ≡ false → Distinct xs → Distinct (xs ++ x ∷ [])
  Distinct-append [] x h d = (tt, tt)
  Distinct-append (y ∷ xs) x h d =
      (All-append _ xs (x ∷ []) d.0 (ground arith, tt), Distinct-append xs x (ground arith) d.1)

  pub Distinct-select : (p : A → Bool) (xs : List A) → Distinct xs → Distinct (select p xs)
  Distinct-select p [] d = tt
  Distinct-select p (x ∷ xs) d = elim (Bool-cases (p x)) [
    | inl yes' ↦ rw yes' (All-select _ p xs d.0, Distinct-select p xs d.1)
    | inr no' ↦ rw no' (Distinct-select p xs d.1)
  ]

  module _ (p : A → Bool) (f : A → A) (keeps : (x y : A) → same (f x) y ≡ same x y)
      (keeps' : (x y : A) → same x (f y) ≡ same x y) where
    same-update :
        (x : A) (xs : List A)
        → All (λ y. same x y ≡ false) xs
        → All (λ y. same x y ≡ false) (update p f xs)
    same-update x [] h = tt
    same-update x (y ∷ xs) h = (ground (arith, keeps' x y, h.0), same-update x xs h.1)

    same-changed :
        (x : A) (xs : List A) → All (λ y. same x y ≡ false) xs → All (λ y. same (f x) y ≡ false) xs
    same-changed x [] h = tt
    same-changed x (y ∷ xs) h = (rw (keeps x y) h.0, same-changed x xs h.1)

    -- an update that leaves the keys alone
    pub Distinct-update : (xs : List A) → Distinct xs → Distinct (update p f xs)
    Distinct-update [] d = tt
    Distinct-update (x ∷ xs) d = elim (Bool-cases (p x)) [
      | inl yes' ↦ rw yes' (same-changed x _ (same-update x xs d.0), Distinct-update xs d.1)
      | inr no' ↦ rw no' (same-update x xs d.0, Distinct-update xs d.1)
    ]

module _ {A : Type 0} (id : A → ℕ) where
  contains-select :
      (p : A → Bool) (xs : List A) (n : ℕ)
      → contains (map id xs) n ≡ true
      → contains (map id (select p xs)) n ≡ false
      → contains (map id (select (λ x. not (p x)) xs)) n ≡ true
  contains-select p [] n h k = h
  contains-select p (x ∷ xs) n h k = ground (arith, contains-select p xs n)

  pub map-update :
      (p : A → Bool) (f : A → A) (xs : List A)
      → ((x : A) → id (f x) ≡ id x)
      → map id (update p f xs) ≡ map id xs
  map-update p f [] k = refl
  map-update p f (x ∷ xs) k = ground (arith, k x, map-update p f xs k)

-- every row refers to one of the ids
abbrev pub Refers : {A : Type 0} → List ℕ → (A → ℕ) → List A → Type 0
Refers ids fk = All (λ r. contains ids (fk r) ≡ true)

module _ {B : Type 0} (fk : B → ℕ) where
  pub Refers-append :
      (ids more : List ℕ) (rows : List B) → Refers ids fk rows → Refers (ids ++ more) fk rows
  Refers-append ids more [] h = tt
  Refers-append ids more (r ∷ rows) h =
      (rw (contains-append ids more (fk r), h.0), Refers-append ids more rows h.1)

  -- ON DELETE CASCADE: what is left refers to parents that are left
  pub Refers-cascade :
      {A : Type 0} (id : A → ℕ) (p : A → Bool) (parents : List A) (rows : List B)
      → Refers (map id parents) fk rows
      → Refers
          (map id (select (λ x. not (p x)) parents))
          fk
          (select (λ r. not (contains (map id (select p parents)) (fk r))) rows)
  Refers-cascade id p parents [] h = tt
  Refers-cascade id p parents (r ∷ rows) h =
      elim (Bool-cases (contains (map id (select p parents)) (fk r))) [
        | inl gone ↦ rw gone (Refers-cascade id p parents rows h.1)
        | inr left ↦
            rw left
              (contains-select id p parents (fk r) h.0 left, Refers-cascade id p parents rows h.1)
      ]

module _ {B : Type 0} (fk : B → ℕ) {A : Type 0} (id : A → ℕ) where
  -- one more parent
  pub Refers-insert :
      (parents : List A) (p : A) (rows : List B)
      → Refers (map id parents) fk rows
      → Refers (map id (parents ++ p ∷ [])) fk rows
  Refers-insert parents p rows h =
      rw (map-append id parents (p ∷ [])) (Refers-append fk (map id parents) (id p ∷ []) rows h)

  -- an update of the parents that leaves their ids alone
  pub Refers-update :
      (p : A → Bool) (f : A → A) (parents : List A) (rows : List B)
      → ((x : A) → id (f x) ≡ id x)
      → Refers (map id parents) fk rows
      → Refers (map id (update p f parents)) fk rows
  Refers-update p f parents rows k h = rw (map-update id p f parents k) h
