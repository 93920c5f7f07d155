-- ===== src/Store/Exec/Preserves.antt =====
-- Invariants of database handlers, one rule for each way to build a handler.
use soft_serve.Base.{true, false, if◌then◌else◌, Bool, Option, none, some, List, find}
use soft_serve.Names.{NameError}
use soft_serve.Store.Schema.{Db}
use soft_serve.Store.Exec.{
  Error, Result, ok, err, Exec, pure, raise, gets, one, get_one, exec, valid, ◌>>=◌, on_error,
  transaction, continue, commit, or_else, attempt,
}

-- whether the handler returns a result or an error
pub record Preserves {A : Type 0} (P : Db → Type 0) (m : Exec A) : Type 0 where
  pub at : (db : Db) → P db → P (m db).1

commit_case :
    {A : Type 0} (P : Db → Type 0) (r : Result A) (before after : Db)
    → P before
    → P after
    → P (commit r before after).1
commit_case P (ok a) before after h k = k
commit_case P (err e) before after h k = h

module _ {A : Type 0} {P : Db → Type 0} where
  pub Preserves-pure : (a : A) → Preserves P (pure a)
  unfolding pure
  Preserves-pure a = record { at = λ db h. h }

  pub Preserves-raise : (e : Error) → Preserves P (raise {A = A} e)
  unfolding raise
  Preserves-raise e = record { at = λ db h. h }

  pub Preserves-gets : (f : Db → A) → Preserves P (gets f)
  unfolding gets
  Preserves-gets f = record { at = λ db h. h }

  pub Preserves-one : (o : Option A) → Preserves P (one o)
  unfolding one
  Preserves-one none = record { at = λ db h. h }
  Preserves-one (some a) = record { at = λ db h. h }

  pub Preserves-get_one : (table : Db → List A) (p : A → Bool) → Preserves P (get_one table p)
  unfolding get_one one
  Preserves-get_one table p = record { at = λ db h. (Preserves-one (find p (table db))).at db h }

  pub Preserves-on_error :
      (f : Error → Error) (m : Exec A) → Preserves P m → Preserves P (on_error f m)
  unfolding on_error
  Preserves-on_error f m k = record { at = k.at }

  pub Preserves-transaction : (m : Exec A) → Preserves P m → Preserves P (transaction m)
  unfolding transaction
  Preserves-transaction m k = record {
    at = λ db h. commit_case P (m db).0 db (m db).1 h (k.at db h);
  }

module _ {P : Db → Type 0} where
  pub Preserves-valid : (verdict : Option NameError) → Preserves P (valid verdict)
  unfolding valid
  Preserves-valid none = record { at = λ db h. h }
  Preserves-valid (some e) = record { at = λ db h. h }

  pub Preserves-exec : (f : Db → Db) → ((db : Db) → P db → P (f db)) → Preserves P (exec f)
  unfolding exec
  Preserves-exec f k = record { at = k }

module _ {A B : Type 0} {P : Db → Type 0} where
  continue_case :
      (r : Result A) (f : A → Exec B)
      → ((a : A) → Preserves P (f a))
      → (db : Db) → P db
      → P (continue r f db).1
  continue_case (ok a) f k db h = (k a).at db h
  continue_case (err e) f k db h = h

  pub Preserves-bind :
      (m : Exec A) (f : A → Exec B)
      → Preserves P m
      → ((a : A) → Preserves P (f a))
      → Preserves P (m >>= f)
  unfolding ◌>>=◌
  Preserves-bind m f km kf = record {
    at = λ db h. continue_case (m db).0 f kf (m db).1 (km.at db h);
  }

module _ {P : Db → Type 0} where
  pub Preserves-attempt : {A : Type 0} (m : Exec A) → Preserves P m → Preserves P (attempt m)
  unfolding attempt
  Preserves-attempt m k = record { at = k.at }

  pub Preserves-or_else :
      {A : Type 0} (d : A) (m : Exec A) → Preserves P m → Preserves P (or_else d m)
  unfolding or_else
  Preserves-or_else d m k = record { at = k.at }

  pub Preserves-if :
      {A : Type 0} (b : Bool) (m n : Exec A)
      → Preserves P m
      → Preserves P n
      → Preserves P (if b then m else n)
  Preserves-if true m n k l = k
  Preserves-if false m n k l = l

pub ruleset preserves_rules = (
  Preserves-pure, Preserves-raise, Preserves-gets, Preserves-one, Preserves-get_one,
  Preserves-on_error, Preserves-transaction, Preserves-valid, Preserves-bind,
)
