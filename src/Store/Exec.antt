-- ===== src/Store/Exec.antt =====
-- Database handlers: a result or an error, and the database that the statements have left.
-- pkg/db/db.go (TransactionContext) and pkg/db/errors.go (WrapError).
pub mod Preserves
pub mod Bind
use soft_serve.Base.{Bool, true, false, Option, none, some, List, Text, find}
use soft_serve.Names.{NameError}
use soft_serve.Webhook.{UrlError}
use soft_serve.Store.Schema.{Db}

-- db.ErrRecordNotFound is sql.ErrNoRows; `constraint` is a driver's error for a unique, primary or
-- foreign key, and `not_null` its error for a missing value; the rest are the errors of pkg/proto,
-- of the validators, of the parsers of arguments, and of the operating system.
pub data Error : Type 0 where
  record_not_found constraint not_null duplicate_key : Error
  invalid_name : NameError → Error
  invalid_key io_error webhook_error : Error
  user_not_found repo_not_found repo_exist : Error
  token_not_found token_expired : Error
  collaborator_not_found collaborator_exist : Error
  unauthorized invalid_argument : Error
  query_error : Error
  invalid_webhook : UrlError → Error

pub data Result (A : Type 0) : Type 0 where
  ok : A → Result A
  err : Error → Result A

abbrev pub Exec : Type 0 → Type 0
Exec A = Db → Result A × Db

abbrev continue : {A B : Type 0} → Result A → (A → Exec B) → Exec B
continue (ok a) f db = f a db
continue (err e) f db = (err e, db)

unfoldable pub pure : {A : Type 0} → A → Exec A
pure a db = (ok a, db)

unfoldable pub raise : {A : Type 0} → Error → Exec A
raise e db = (err e, db)

-- a SELECT
unfoldable pub gets : {A : Type 0} → (Db → A) → Exec A
gets f db = (ok (f db), db)

-- the first row, or sql.ErrNoRows
unfoldable pub one : {A : Type 0} → Option A → Exec A
one none db = (err record_not_found, db)
one (some a) db = (ok a, db)

-- GetContext
unfoldable pub get_one : {A : Type 0} → (Db → List A) → (A → Bool) → Exec A
unfolding one
get_one table p db = one (find p (table db)) db

-- a statement that cannot fail
unfoldable pub exec : (Db → Db) → Exec (Unit {0})
exec f db = (ok tt, f db)

-- a statement that a constraint may refuse, with the value that it returns
unfoldable pub checked : {A : Type 0} → Bool → Error → A → (Db → Db) → Exec A
checked true e a f db = (err e, db)
checked false e a f db = (ok a, f db)

-- a validator's verdict
unfoldable pub valid : Option NameError → Exec (Unit {0})
valid none db = (ok tt, db)
valid (some e) db = (err (invalid_name e), db)

infixl 10 ◌>>=◌ ◌>>◌
-- opening this opens the statements above too
unfoldable pub ◌>>=◌ : {A B : Type 0} → Exec A → (A → Exec B) → Exec B
unfolding pure raise gets one get_one exec checked valid
◌>>=◌ m f db = let (r, db') = m db in continue r f db'

abbrev pub ◌>>◌ : {B : Type 0} → Exec (Unit {0}) → Exec B → Exec B
m >> n = m >>= λ _. n

abbrev pub on_error_result : {A : Type 0} → (Error → Error) → Result A → Result A
on_error_result f (ok a) = ok a
on_error_result f (err e) = err (f e)

-- `if err != nil { return f(err) }`
unfoldable pub on_error : {A : Type 0} → (Error → Error) → Exec A → Exec A
on_error f m db = let (r, db') = m db in (on_error_result f r, db')

-- WrapError
abbrev pub wrap_error : Error → Error
wrap_error constraint = duplicate_key
wrap_error e = e

abbrev commit : {A : Type 0} → Result A → Db → Db → Result A × Db
commit (ok a) before after = (ok a, after)
commit (err e) before after = (err e, before)

-- TransactionContext: an error rolls the database back
unfoldable pub transaction : {A : Type 0} → Exec A → Exec A
transaction m db = let (r, db') = m db in commit r db db'

abbrev or_else_result : {A : Type 0} → A → Result A → Result A
or_else_result d (ok a) = ok a
or_else_result d (err e) = ok d

-- `if err != nil { return d }`
unfoldable pub or_else : {A : Type 0} → A → Exec A → Exec A
or_else d m db = let (r, db') = m db in (or_else_result d r, db')

abbrev attempt_result : {A : Type 0} → Result A → Result (Option A)
attempt_result (ok a) = ok (some a)
attempt_result (err e) = ok none

-- `a, _ := m`, where a failure leaves nil
unfoldable pub attempt : {A : Type 0} → Exec A → Exec (Option A)
attempt m db = let (r, db') = m db in (attempt_result r, db')
