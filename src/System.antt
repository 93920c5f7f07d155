-- ===== src/System.antt =====
-- The state of a server beside its tables, and operations on all of it: a result or an error, and
-- the tables, files and cached repositories that are left.
pub mod Disk
pub mod Cache
pub mod Keeps
pub mod Bind
pub mod Removed
pub mod Written
use soft_serve.Base.{Bool, Option, none, some, List, [], ◌∷◌}
use soft_serve.Store.Schema.{Db}
use soft_serve.Store.Exec.{Error, Result, ok, err, Exec, on_error_result}
use soft_serve.System.Disk.{Files}

-- The tables, the files, and the cache of repositories, whose states are C
pub record World (C : Type 0) : Type 0 where
  pub db : Db
  pub disk : Files
  pub cache : C

abbrev pub Sys : Type 0 → Type 0 → Type 0
Sys C A = World C → Result A × World C

module _ {C : Type 0} where
  abbrev pub continue : {A B : Type 0} → Result A → (A → Sys C B) → Sys C B
  continue (ok a) f w = f a w
  continue (err e) f w = (err e, w)

  unfoldable pub pure : {A : Type 0} → A → Sys C A
  pure a w = (ok a, w)

  unfoldable pub raise : {A : Type 0} → Error → Sys C A
  raise e w = (err e, w)

  infixl 10 ◌>>=◌ ◌>>◌
  unfoldable pub ◌>>=◌ : {A B : Type 0} → Sys C A → (A → Sys C B) → Sys C B
  unfolding pure raise
  ◌>>=◌ m f w = let (r, w') = m w in continue r f w'

  abbrev pub ◌>>◌ : {B : Type 0} → Sys C (Unit {0}) → Sys C B → Sys C B
  m >> n = m >>= λ _. n

  -- a statement on the tables
  unfoldable pub on_db : {A : Type 0} → Exec A → Sys C A
  on_db m w = let (r, db') = m w.db in (r, record w { db = db' })

  -- a call of the operating system
  unfoldable pub on_disk : {A : Type 0} → (Files → Result A × Files) → Sys C A
  on_disk f w = let (r, disk') = f w.disk in (r, record w { disk = disk' })

  -- what a call of the operating system reads
  unfoldable pub reads_disk : {A : Type 0} → (Files → A) → Sys C A
  reads_disk f w = (ok (f w.disk), w)

  -- a call on the cache
  unfoldable pub on_cache : {A : Type 0} → (C → A × C) → Sys C A
  on_cache f w = let (a, cache') = f w.cache in (ok a, record w { cache = cache' })

  -- `if err != nil { return f(err) }`
  unfoldable pub on_error : {A : Type 0} → (Error → Error) → Sys C A → Sys C A
  on_error f m w = let (r, w') = m w in (on_error_result f r, w')

  -- `a, err := m`, for an error that is tested later
  unfoldable pub attempt : {A : Type 0} → Sys C A → Sys C (Result A)
  attempt m w = let (r, w') = m w in (ok r, w')

  abbrev pub commit : {A : Type 0} → Db → Result A → World C → Result A × World C
  commit before (ok a) w = (ok a, w)
  commit before (err e) w = (err e, record w { db = before })

  -- TransactionContext: an error restores the tables, and neither the files nor the cache
  unfoldable pub transaction : {A : Type 0} → Sys C A → Sys C A
  transaction m w = let (r, w') = m w in commit w.db r w'

  -- `defer f()` before m
  unfoldable pub deferred : {A : Type 0} → (C → C) → Sys C A → Sys C A
  deferred f m w = let (r, w') = m w in (r, record w' { cache = f w'.cache })

  -- a loop over a slice that stops at the first error
  unfoldable pub for_each : {A : Type 0} → List A → (A → Sys C (Unit {0})) → Sys C (Unit {0})
  for_each [] f = λ w. (ok tt, w)
  for_each (x ∷ xs) f = f x >> for_each xs f
