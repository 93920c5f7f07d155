-- ===== src/System/Bind.antt =====
-- What is known of an operation on the whole state that returned a result.
use soft_serve.Base.{◌≡◌, refl, sym, ap, arith}
use soft_serve.Store.Exec.{Error, Result, ok, err}
use soft_serve.System.{World, Sys, ◌>>=◌, on_error, transaction, deferred}

module _ {C : Type 0} where
  pub sys_bind_ok :
      {A B : Type 0} (m : Sys C A) (f : A → Sys C B) (b : B) (w after : World C)
      → (m >>= f) w ≡ (ok b, after)
      → (a : A) × (middle : World C) × (m w ≡ (ok a, middle)) × (f a middle ≡ (ok b, after))
  unfolding ◌>>=◌
  sys_bind_ok {A = A} {B = B} m f b w after h = split (m w).0 (m w).1 refl
    where
      split :
          (x : Result A) (middle : World C)
          → m w ≡ (x, middle)
          → (a : A) × (middle' : World C) × (m w ≡ (ok a, middle')) × (f a middle' ≡ (ok b, after))
      split (ok a) middle e = (a, middle, e, (rw e at h))
      split (err x) middle e = absurd (ground (arith, (rw e at h)))

  -- a transaction that returns a result is its body
  pub transaction_ok :
      {A : Type 0} (f : Error → Error) (m : Sys C A) (a : A) (w after : World C)
      → on_error f (transaction m) w ≡ (ok a, after)
      → m w ≡ (ok a, after)
  unfolding on_error transaction
  transaction_ok {A = A} f m a w after h = split (m w).0 (m w).1 refl
    where
      split : (x : Result A) (middle : World C) → m w ≡ (x, middle) → m w ≡ (ok a, after)
      split (ok b) middle e = rw e (rw e at h)
      split (err x) middle e = absurd (ground (arith, (rw e at h)))

  pub transaction_result :
      {A : Type 0} (m : Sys C A) (a : A) (w after : World C)
      → transaction m w ≡ (ok a, after)
      → m w ≡ (ok a, after)
  unfolding transaction
  transaction_result {A = A} m a w after h = split (m w).0 (m w).1 refl
    where
      split : (x : Result A) (middle : World C) → m w ≡ (x, middle) → m w ≡ (ok a, after)
      split (ok b) middle e = rw e (rw e at h)
      split (err x) middle e = absurd (ground (arith, (rw e at h)))

  -- one that returns an error leaves the tables as they were
  pub transaction_error :
      {A : Type 0} (f : Error → Error) (m : Sys C A) (e : Error) (w after : World C)
      → on_error f (transaction m) w ≡ (err e, after)
      → after.db ≡ w.db
  unfolding on_error transaction
  transaction_error {A = A} f m e w after h = split (m w).0 (m w).1 refl
    where
      split : (x : Result A) (middle : World C) → m w ≡ (x, middle) → after.db ≡ w.db
      split (ok b) middle k = absurd (ground (arith, (rw k at h)))
      split (err x) middle k = ground (arith, (rw k at h))

  pub deferred_ok :
      {A : Type 0} (f : C → C) (m : Sys C A) (a : A) (w after : World C)
      → deferred f m w ≡ (ok a, after)
      → (middle : World C) × (m w ≡ (ok a, middle))
        × (after ≡ record middle { cache = f middle.cache })
  unfolding deferred
  deferred_ok f m a w after h =
      ((m w).1, ap (λ r. (r, (m w).1)) (ap (λ p. p.0) h), sym (ap (λ p. p.1) h))
