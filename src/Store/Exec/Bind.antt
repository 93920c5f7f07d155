-- ===== src/Store/Exec/Bind.antt =====
-- What is known of a computation in two parts that returned a result.
use soft_serve.Base.{◌≡◌, refl, arith}
use soft_serve.Store.Schema.{Db}
use soft_serve.Store.Exec.{Error, Result, Exec, ok, err, ◌>>=◌, on_error, transaction}
use soft_serve.Store.Exec.Preserves.{Preserves}

-- a computation that returns a result goes through the result of its first part
pub bind_ok :
    {A B : Type 0} (m : Exec A) (f : A → Exec B) (b : B) (db after : Db)
    → (m >>= f) db ≡ (ok b, after)
    → (a : A) × (middle : Db) × (m db ≡ (ok a, middle)) × (f a middle ≡ (ok b, after))
unfolding ◌>>=◌
bind_ok {A = A} {B = B} m f b db after h = split (m db).0 (m db).1 refl
  where
    split :
        (x : Result A) (middle : Db)
        → m db ≡ (x, middle)
        → (a : A) × (middle' : Db) × (m db ≡ (ok a, middle')) × (f a middle' ≡ (ok b, after))
    split (ok a) middle e = (a, middle, e, (rw e at h))
    split (err x) middle e = absurd (ground (arith, (rw e at h)))

-- the same, for a first part that only reads
pub bind_reads :
    {A B : Type 0} (m : Exec A) (f : A → Exec B) (b : B) (db after : Db)
    → Preserves (λ d. d ≡ db) m
    → (m >>= f) db ≡ (ok b, after)
    → (a : A) × (m db ≡ (ok a, db)) × (f a db ≡ (ok b, after))
bind_reads {A = A} {B = B} m f b db after k h =
    let (a, middle, run, end) = bind_ok m f b db after h in
    back a middle run end (ground (arith, run, k.at db refl))
  where
    back :
        (a : A) (middle : Db)
        → m db ≡ (ok a, middle)
        → f a middle ≡ (ok b, after)
        → middle ≡ db
        → (a' : A) × (m db ≡ (ok a', db)) × (f a' db ≡ (ok b, after))
    back a middle run end same = (a, rw same at run, rw same at end)

-- a result is not changed on its way out
pub on_error_ok :
    {A : Type 0} (f : Error → Error) (m : Exec A) (a : A) (db after : Db)
    → on_error f m db ≡ (ok a, after)
    → m db ≡ (ok a, after)
unfolding on_error
on_error_ok {A = A} f m a db after h = split (m db).0 (m db).1 refl
  where
    split : (x : Result A) (middle : Db) → m db ≡ (x, middle) → m db ≡ (ok a, after)
    split (ok b) middle e = rw e (rw e at h)
    split (err x) middle e = absurd (ground (arith, (rw e at h)))

-- a transaction that returned a result has committed what its body did
pub transaction_ok :
    {A : Type 0} (m : Exec A) (a : A) (db after : Db)
    → transaction m db ≡ (ok a, after)
    → m db ≡ (ok a, after)
unfolding transaction
transaction_ok {A = A} m a db after h = split (m db).0 (m db).1 refl
  where
    split : (x : Result A) (middle : Db) → m db ≡ (x, middle) → m db ≡ (ok a, after)
    split (ok b) middle e = rw e (rw e at h)
    split (err x) middle e = absurd (ground (arith, (rw e at h)))
