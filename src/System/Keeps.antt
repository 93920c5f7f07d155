-- ===== src/System/Keeps.antt =====
-- What an operation does to a relation between the cache and the tables: one rule for each way to
-- build an operation.
use soft_serve.Base.{◌≡◌, refl, Bool, true, false, List, [], ◌∷◌, if◌then◌else◌}
use soft_serve.Store.Schema.{Db}
use soft_serve.Store.Exec.{Error, Result, ok, err, Exec}
use soft_serve.Store.Exec.Preserves.{Preserves}
use soft_serve.System.{
  World, Sys, continue, ◌>>=◌, pure, raise, on_db, on_disk, reads_disk, on_error, attempt, commit,
  transaction, for_each,
}
use soft_serve.System.Disk.{Files}

module _ {C : Type 0} where
  -- the operation keeps the relation
  pub record Keeps {A : Type 0} (P : C → Db → Type 0) (m : Sys C A) : Type 0 where
    pub at : (w : World C) → P w.cache w.db → P (m w).1.cache (m w).1.db

  -- the operation keeps the relation, and leaves the cache alone
  pub record Quiet {A : Type 0} (P : C → Db → Type 0) (m : Sys C A) : Type 0 where
    pub at : (w : World C) (c : C) → P c w.db → P c (m w).1.db
    pub same : (w : World C) → (m w).1.cache ≡ w.cache

  module _ {A : Type 0} where
    commit-same : (before : Db) (r : Result A) (w : World C) → (commit before r w).1.cache ≡ w.cache
    commit-same before (ok a) w = refl
    commit-same before (err e) w = refl

    commit-at :
        (P : C → Db → Type 0) (c : C) (before : Db) (r : Result A) (w : World C)
        → P c before
        → P c w.db
        → P c (commit before r w).1.db
    commit-at P c before (ok a) w h k = k
    commit-at P c before (err e) w h k = h

  module _ {A : Type 0} {P : C → Db → Type 0} where
    pub Keeps-Quiet : (m : Sys C A) → Quiet P m → Keeps P m
    Keeps-Quiet m q = record { at = λ w h. rw (q.same w) (q.at w w.cache h) }

    pub Quiet-pure : (a : A) → Quiet P (pure a)
    unfolding pure
    Quiet-pure a = record { at = λ w c h. h; same = λ w. refl }

    pub Quiet-raise : (e : Error) → Quiet P (raise {A = A} e)
    unfolding raise
    Quiet-raise e = record { at = λ w c h. h; same = λ w. refl }

    pub Quiet-on_db : (m : Exec A) → ((c : C) → Preserves (P c) m) → Quiet P (on_db m)
    unfolding on_db
    Quiet-on_db m k = record { at = λ w c h. (k c).at w.db h; same = λ w. refl }

    pub Quiet-on_disk : (f : Files → Result A × Files) → Quiet P (on_disk f)
    unfolding on_disk
    Quiet-on_disk f = record { at = λ w c h. h; same = λ w. refl }

    pub Quiet-reads_disk : (f : Files → A) → Quiet P (reads_disk f)
    unfolding reads_disk
    Quiet-reads_disk f = record { at = λ w c h. h; same = λ w. refl }

    pub Quiet-on_error : (f : Error → Error) (m : Sys C A) → Quiet P m → Quiet P (on_error f m)
    unfolding on_error
    Quiet-on_error f m q = record { at = q.at; same = q.same }

    pub Quiet-attempt : (m : Sys C A) → Quiet P m → Quiet P (attempt m)
    unfolding attempt
    Quiet-attempt m q = record { at = q.at; same = q.same }

    pub Quiet-if : (b : Bool) (m n : Sys C A) → Quiet P m → Quiet P n → Quiet P (if b then m else n)
    Quiet-if true m n k l = k
    Quiet-if false m n k l = l

    pub Quiet-transaction : (m : Sys C A) → Quiet P m → Quiet P (transaction m)
    unfolding transaction
    Quiet-transaction m q = record {
      at = λ w c h. commit-at P c w.db (m w).0 (m w).1 h (q.at w c h);
      same = λ w. rw (commit-same w.db (m w).0 (m w).1) (q.same w);
    }

    pub Keeps-on_error : (f : Error → Error) (m : Sys C A) → Keeps P m → Keeps P (on_error f m)
    unfolding on_error
    Keeps-on_error f m q = record { at = q.at }

    pub Keeps-if : (b : Bool) (m n : Sys C A) → Keeps P m → Keeps P n → Keeps P (if b then m else n)
    Keeps-if true m n k l = k
    Keeps-if false m n k l = l

  module _ {A B : Type 0} {P : C → Db → Type 0} where
    continue_both :
        (r : Result A) (f : A → Sys C B)
        → ((a : A) → Quiet P (f a))
        → (w : World C)
        → ((c : C) → P c w.db → P c (continue r f w).1.db) × ((continue r f w).1.cache ≡ w.cache)
    continue_both (ok a) f k w = ((k a).at w, (k a).same w)
    continue_both (err e) f k w = (λ c h. h, refl)

    pub Quiet-bind :
        (m : Sys C A) (f : A → Sys C B) → Quiet P m → ((a : A) → Quiet P (f a)) → Quiet P (m >>= f)
    unfolding ◌>>=◌
    Quiet-bind m f km kf = record {
      at = λ w c h. (continue_both (m w).0 f kf (m w).1).0 c (km.at w c h);
      same = λ w. rw (continue_both (m w).0 f kf (m w).1).1 (km.same w);
    }

    keeps_case :
        (r : Result A) (f : A → Sys C B)
        → ((a : A) → Keeps P (f a))
        → (w : World C) → P w.cache w.db
        → P (continue r f w).1.cache (continue r f w).1.db
    keeps_case (ok a) f k w h = (k a).at w h
    keeps_case (err e) f k w h = h

    pub Keeps-bind :
        (m : Sys C A) (f : A → Sys C B) → Keeps P m → ((a : A) → Keeps P (f a)) → Keeps P (m >>= f)
    unfolding ◌>>=◌
    Keeps-bind m f km kf = record { at = λ w h. keeps_case (m w).0 f kf (m w).1 (km.at w h) }

  module _ {A : Type 0} {P : C → Db → Type 0} where
    pub Quiet-for_each :
        (xs : List A) (f : A → Sys C (Unit {0}))
        → ((x : A) → Quiet P (f x))
        → Quiet P (for_each xs f)
    unfolding for_each pure
    Quiet-for_each [] f k = Quiet-pure tt
    Quiet-for_each (x ∷ xs) f k = Quiet-bind (f x) _ (k x) (λ _. Quiet-for_each xs f k)

-- An operation that keeps any relation, and leaves the cache alone, leaves the tables alone.
pub unchanged_after :
    {C A : Type 0} (m : Sys C A)
    → ((P : C → Db → Type 0) → Quiet P m)
    → (r : Result A) (w after : World C) → m w ≡ (r, after)
    → (after.db ≡ w.db) × (after.cache ≡ w.cache)
unchanged_after m q r w after e =
    let tables = (q (λ c db. db ≡ w.db)).at w w.cache refl in
    let cache = (q (λ c db. db ≡ w.db)).same w in (rw e at tables, rw e at cache)

pub ruleset quiet_rules = (
  Quiet-pure, Quiet-raise, Quiet-on_db, Quiet-on_disk, Quiet-reads_disk, Quiet-on_error,
  Quiet-attempt, Quiet-if, Quiet-transaction, Quiet-bind, Quiet-for_each,
)

pub ruleset keeps_rules = (Keeps-on_error, Keeps-if, Keeps-bind)
