-- ===== src/Store/Consistent/Statements.antt =====
-- The inserts and updates of users and keys, and the consistency of the tables.
use soft_serve.Base.{
  ℕ, ◌+◌, ◌<◌, ◌≡◌, refl, ap, none, Bool, true, false, not, ◌||◌, List, [], ◌∷◌, ◌++◌, Text,
  text_eq, All, All-append, All-select, All-update, any, select, update, arith, ◌==◌, Bool-cases,
  inl, inr,
}
use soft_serve.Store.Schema.{User, PublicKey, Db}
use soft_serve.Store.Exec.{Error, checked}
use soft_serve.Store.Exec.Preserves.{Preserves}
use soft_serve.Store.Rows.{
  Distinct, Distinct-append, Distinct-select, Distinct-update, Refers-insert, Refers-update,
}
use soft_serve.Store.Renames.{Distinct-update_name}
use soft_serve.Store.Users.{named, insert_public_key, insert_user, update_username}
use soft_serve.Store.Consistent.{IsConsistent, IsNumbered, same_username, same_user_id}

-- a guarded statement, whose guard has passed
pub Preserves-checked :
    {A : Type 0} {P : Db → Type 0} (guard : Db → Bool) (e : Error) (a : Db → A) (f : Db → Db)
    → ((db : Db) → guard db ≡ false → P db → P (f db))
    → Preserves P (λ db. checked (guard db) e (a db) f db)
unfolding checked
Preserves-checked guard e a f k = record {
  at = λ db h. elim (Bool-cases (guard db)) [ inl stop ↦ rw stop h | inr go ↦ rw go (k db go h) ];
}

-- an insert, which a duplicate or a missing parent stops
pub Preserves-inserted :
    {A : Type 0} {P : Db → Type 0} (taken known : Db → Bool) (e : Error) (a : Db → A) (f : Db → Db)
    → ((db : Db) → taken db ≡ false → known db ≡ true → P db → P (f db))
    → Preserves P (λ db. checked (taken db || not (known db)) e (a db) f db)
Preserves-inserted taken known e a f k =
    Preserves-checked (λ db. taken db || not (known db)) e a f
      λ db pass h. k db (ground arith) (ground arith) h

pub ids_below_fresh :
    {A : Type 0} (id : A → ℕ) (n : ℕ) (rows : List A)
    → All (λ r. id r < n) rows
    → any (λ r. id r == n) rows ≡ false
ids_below_fresh id n [] h = refl
ids_below_fresh id n (r ∷ rows) h = ground (arith, ids_below_fresh id n rows h.1)

pub ids_below_next :
    {A : Type 0} (id : A → ℕ) (n : ℕ) (rows : List A) (r : A)
    → id r ≡ n
    → All (λ r. id r < n) rows
    → All (λ r. id r < n + 1) (rows ++ r ∷ [])
ids_below_next id n [] r e h = (omega arith, tt)
ids_below_next id n (s ∷ rows) r e h = (omega arith, ids_below_next id n rows r e h.1)

-- a row with the next id
pub IsNumbered-append :
    {A : Type 0} (id : A → ℕ) (n : ℕ) (rows : List A) (r : A)
    → id r ≡ n
    → IsNumbered id n rows
    → IsNumbered id (n + 1) (rows ++ r ∷ [])
IsNumbered-append id n rows r e (distinct, below) = (
  Distinct-append _ rows r (rw e (ids_below_fresh id n rows below)) distinct,
  ids_below_next id n rows r e below,
)

pub IsNumbered-select :
    {A : Type 0} (id : A → ℕ) (n : ℕ) (p : A → Bool) (rows : List A)
    → IsNumbered id n rows
    → IsNumbered id n (select p rows)
IsNumbered-select id n p rows (distinct, below) =
    (Distinct-select _ p rows distinct, All-select _ p rows below)

pub insert_public_key-IsConsistent :
    (user_id : ℕ) (ak : Text) → Preserves IsConsistent (insert_public_key user_id ak)
unfolding insert_public_key
insert_public_key-IsConsistent user_id ak = Preserves-inserted _ _ _ _ _ λ db fresh owned h.
    let k : PublicKey = record { id = db.next_key; user_id = user_id; public_key = ak } in
    assumption (
      Distinct-append _ db.public_keys k fresh h.keys,
      IsNumbered-append (λ r. r.id) db.next_key db.public_keys k refl h.key_ids,
      All-append _ db.public_keys (k ∷ []) h.key_user (owned, tt),
    )

pub insert_user-IsConsistent :
    (username : Text) (admin : Bool) → Preserves IsConsistent (insert_user username admin)
unfolding insert_user
insert_user-IsConsistent username admin = Preserves-checked _ _ _ _ λ db pass h.
    let u : User = record {
      id = db.next_user;
      username = username;
      admin = admin;
      password = none;
    } in
    assumption (
      Distinct-append _ db.users u pass h.usernames,
      Distinct-append _ db.users u
          (ids_below_fresh (λ v. v.id) db.next_user db.users h.user_ids_below) h.user_ids_distinct,
      ids_below_next (λ v. v.id) db.next_user db.users u refl h.user_ids_below,
      Refers-insert (λ k. k.user_id) (λ v. v.id) db.users u db.public_keys h.key_user,
      Refers-insert (λ r. r.user_id) (λ v. v.id) db.users u db.repos h.repo_user,
      Refers-insert (λ c. c.user_id) (λ v. v.id) db.users u db.collabs h.collab_user,
      Refers-insert (λ t. t.user_id) (λ v. v.id) db.users u db.access_tokens h.token_user,
      Refers-insert (λ l. l.user_id) (λ v. v.id) db.users u db.lfs_locks h.lock_user,
    )

-- an UPDATE of the users that leaves their ids alone
module _ (p : User → Bool) (f : User → User) (same_id : (u : User) → (f u).id ≡ u.id) where
  users_updated-IsConsistent :
      {db : Db}
      → Distinct same_username (update p f db.users)
      → IsConsistent db
      → IsConsistent (record db { users = update p f db.users })
  users_updated-IsConsistent {db} names h = assumption (
    Distinct-update same_user_id p f (λ u v. ap (λ n. n == v.id) (same_id u))
        (λ u v. ap (λ n. u.id == n) (same_id v)) db.users h.user_ids_distinct,
    All-update (λ u. u.id < db.next_user) p f db.users (λ u b. rw (same_id u) b) h.user_ids_below,
    Refers-update (λ k. k.user_id) (λ v. v.id) p f db.users db.public_keys same_id h.key_user,
    Refers-update (λ r. r.user_id) (λ v. v.id) p f db.users db.repos same_id h.repo_user,
    Refers-update (λ c. c.user_id) (λ v. v.id) p f db.users db.collabs same_id h.collab_user,
    Refers-update (λ t. t.user_id) (λ v. v.id) p f db.users db.access_tokens same_id h.token_user,
    Refers-update (λ l. l.user_id) (λ v. v.id) p f db.users db.lfs_locks same_id h.lock_user,
  )

  pub users_kept-IsConsistent :
      {db : Db}
      → ((u : User) → (f u).username ≡ u.username)
      → IsConsistent db
      → IsConsistent (record db { users = update p f db.users })
  users_kept-IsConsistent {db} same_name h =
      users_updated-IsConsistent {db = db}
        (Distinct-update same_username p f (λ u v. ap (λ n. text_eq n v.username) (same_name u))
          (λ u v. ap (λ n. text_eq u.username n) (same_name v)) db.users h.usernames)
        h

pub update_username-IsConsistent :
    (old new : Text) → Preserves IsConsistent (update_username old new)
unfolding update_username
update_username-IsConsistent old new = Preserves-checked _ _ _ _ λ db pass h.
    users_updated-IsConsistent (named old) (λ u. record u { username = new }) (λ u. refl) {db = db}
      (Distinct-update_name (λ u. u.username) old new (λ u. record u { username = new }) (λ u. refl)
        db.users pass h.usernames)
      h
