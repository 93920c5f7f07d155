-- ===== src/Web/Locks.antt =====
-- pkg/web/git_lfs.go: the handlers of Git LFS locks. Bodies and queries are given as they are decoded;
-- in a query, a number that is absent, unreadable or not positive is 0. The column created_at is left
-- out of the answers.
pub mod Deletes
pub mod Pages
use soft_serve.Base.{
  ℕ, ◌+◌, Bool, true, false, not, ◌&&◌, Option, none, some, List, [], ◌∷◌, ◌++◌, map, select,
  length, Text, str, text_eq, has_prefix, ltb, ◌==◌, find, if◌then◌else◌,
}
use soft_serve.Env.{Env}
use soft_serve.Store.Schema.{Repo, User, LfsLock, Db}
use soft_serve.Store.Users.{get_user_by_id}
use soft_serve.Store.Lfs.{
  create_lfs_lock_for_user, get_lfs_lock_for_user_path, get_lfs_lock_by_id, get_lfs_lock_for_path,
  get_lfs_locks, delete_lfs_lock,
}
use soft_serve.Store.Exec.{
  Error, record_not_found, duplicate_key, Result, ok, err, Exec, ◌>>=◌, pure, wrap_error,
}
use soft_serve.Backend.Users.{ProtoUser}
use soft_serve.Web.Decimal.{decimal}

abbrev pub media_type : Text
media_type = str "application/vnd.git-lfs+json"

-- lfs.Lock, with the name of its owner
pub record Lock : Type 0 where
  pub id : Text
  pub path : Text
  pub owner : Text

-- What the client gets: status 406; an error of Git LFS with its status; status 409, with the lock or
-- an empty one; status 201; a page of locks with the next cursor; the locks of the user and those of
-- others, with the next cursor; the lock that was deleted.
pub data LockResponse : Type 0 where
  not_acceptable : LockResponse
  failure : ℕ → LockResponse
  conflict : Option Lock → LockResponse
  created : Lock → LockResponse
  listed : List Lock → Option ℕ → LockResponse
  verified : List Lock → List Lock → Option ℕ → LockResponse
  unlocked : Lock → LockResponse

-- isLfs
unfoldable pub is_lfs : Text → Text → Bool
is_lfs content_type accept = has_prefix content_type media_type && has_prefix accept media_type

-- `a, err := m`
unfoldable pub tried : {A : Type 0} → Exec A → Exec (Result A)
tried m db = let (r, db') = m db in (ok r, db')

abbrev pub lock_of : LfsLock → Text → Lock
lock_of l owner = record { id = decimal l.id; path = l.path; owner = owner }

-- errors.Is(err, db.ErrRecordNotFound), and ErrDuplicateKey
abbrev pub is_not_found : Error → Bool
is_not_found e = elim e [ record_not_found ↦ true | other ↦ false ]

abbrev pub is_duplicate : Error → Bool
is_duplicate e = elim (wrap_error e) [ duplicate_key ↦ true | other ↦ false ]

abbrev pub cons_lock : LfsLock → User → Option (List (ℕ × Lock)) → Option (List (ℕ × Lock))
cons_lock l u none = none
cons_lock l u (some rest) = some ((l.user_id, lock_of l u.username) ∷ rest)

-- the limit of a page: at most 100, and 20 if the request has none
unfoldable pub page_limit : ℕ → ℕ
page_limit limit = if ltb 100 limit then 100 else if limit == 0 then 20 else limit

abbrev pub page_number : ℕ → ℕ
page_number cursor = if cursor == 0 then 1 else cursor

abbrev pub next_cursor : ℕ → ℕ → ℕ → Option ℕ
next_cursor count limit cursor = if count == limit then some (cursor + 1) else none

abbrev pub answer_page : ℕ → ℕ → Option (List (ℕ × Lock)) → LockResponse
answer_page limit cursor none = failure 500
answer_page limit cursor (some ls) =
    listed (map (λ l. l.1) ls) (next_cursor (length ls) limit cursor)

abbrev pub is_ours : Option ProtoUser → ℕ → Bool
is_ours none id = false
is_ours (some u) id = u.user.id == id

abbrev pub answer_verify : Option ProtoUser → ℕ → ℕ → Option (List (ℕ × Lock)) → LockResponse
answer_verify user limit cursor none = failure 500
answer_verify user limit cursor (some ls) =
    verified (map (λ l. l.1) (select (λ l. is_ours user l.0) ls))
      (map (λ l. l.1) (select (λ l. not (is_ours user l.0)) ls))
      (next_cursor (length ls) limit cursor)

module _ (env : Env) where
  -- the owner of a lock that is found, or status 500
  unfoldable pub with_owner : LfsLock → (User → LockResponse) → Exec LockResponse
  unfolding tried ◌>>=◌
  with_owner l f = do
    o ← tried (get_user_by_id env l.user_id)
    pure (elim o [ ok u ↦ f u | err e ↦ failure 500 ])

  -- the answer to a lock that exists already, by the lookup of the user's own lock
  unfoldable pub conflict_of : User → Result LfsLock → Exec LockResponse
  unfolding with_owner
  conflict_of user (err e) = pure (conflict none)
  conflict_of user (ok l) =
      if l.user_id == user.id
      then pure (conflict (some (lock_of l user.username)))
      else with_owner l (λ o. conflict (some (lock_of l o.username)))

  -- what CreateLFSLockForUser returned
  unfoldable pub answer_create : Repo → User → Text → Result (Unit {0}) → Exec LockResponse
  unfolding conflict_of tried ◌>>=◌
  answer_create repo user path (err e) =
      if is_duplicate e
      then (tried (get_lfs_lock_for_user_path repo.id user.id path) >>= conflict_of user)
      else pure (failure 500)
  answer_create repo user path (ok t) = do
    l ← tried (get_lfs_lock_for_user_path repo.id user.id path)
    pure (elim l [ ok lock ↦ created (lock_of lock user.username) | err e ↦ failure 500 ])

  create_checked : Option (Text × Text) → Option Repo → Option ProtoUser → Exec LockResponse
  unfolding answer_create tried ◌>>=◌
  create_checked none repo user = pure (failure 400)
  create_checked (some req) none user = pure (failure 404)
  create_checked (some req) (some r) none = pure (failure 404)
  create_checked (some (path, refname)) (some r) (some u) =
      tried (create_lfs_lock_for_user r.id u.user.id path refname) >>= answer_create r u.user path

  -- serviceLfsLocksCreate; the body has a path and the name of a reference
  unfoldable pub locks_create :
      Bool → Option (Text × Text) → Option Repo → Option ProtoUser → Exec LockResponse
  unfolding create_checked
  locks_create lfs body repo user =
      if lfs then create_checked body repo user else pure not_acceptable

  -- one lock that was looked up
  unfoldable pub show_lock : Result LfsLock → Exec LockResponse
  unfolding with_owner
  show_lock (err e) = pure (if is_not_found e then failure 404 else failure 500)
  show_lock (ok l) = with_owner l (λ o. listed (lock_of l o.username ∷ []) none)

  -- an owner, from the map of the users that were looked up or from the store
  abbrev pub known_or : Option User → ℕ → Exec (Result User)
  known_or none id = tried (get_user_by_id env id)
  known_or (some u) id = pure (ok u)

  -- the rest of the loop, once an owner was looked up
  abbrev pub after_owner :
      (User → Exec (Option (List (ℕ × Lock)))) → Result User → Exec (Option (List (ℕ × Lock)))
  after_owner rest (err e) = pure none
  after_owner rest (ok u) = rest u

  -- the loop over a page of locks: each with the id of its user; `none` if a user is missing
  unfoldable pub with_owners : List User → List LfsLock → Exec (Option (List (ℕ × Lock)))
  unfolding tried ◌>>=◌
  with_owners users [] = pure (some [])
  with_owners users (l ∷ ls) = do
    o ← known_or (find (λ u. u.id == l.user_id) users) l.user_id
    after_owner (λ u. do rest ← with_owners (u ∷ users) ls; pure (cons_lock l u rest)) o

  module _ (order : List LfsLock → List LfsLock) where
    -- the page that a request without a path and an id gets
    unfoldable pub list_page : Repo → ℕ → ℕ → Exec LockResponse
    unfolding with_owners page_limit ◌>>=◌
    list_page repo cursor limit = do
      locks ← get_lfs_locks order repo.id (page_number cursor) (page_limit limit)
      named ← with_owners [] locks
      pure (answer_page (page_limit limit) (page_number cursor) named)

    get_checked : Option Repo → Text → ℕ → ℕ → ℕ → Exec LockResponse
    unfolding list_page show_lock tried ◌>>=◌
    get_checked none path id cursor limit = pure (failure 404)
    get_checked (some r) path id cursor limit =
        if ltb 0 id
        then (tried (get_lfs_lock_by_id id) >>= show_lock)
        else if text_eq path []
        then list_page r cursor limit
        else (tried (get_lfs_lock_for_path r.id path) >>= show_lock)

    -- serviceLfsLocksGet
    unfoldable pub locks_get : Text → Option Repo → Text → ℕ → ℕ → ℕ → Exec LockResponse
    unfolding get_checked
    locks_get accept repo path id cursor limit =
        if has_prefix accept media_type
        then get_checked repo path id cursor limit
        else pure not_acceptable

    verify_checked : Option Repo → Option ProtoUser → Option (ℕ × ℕ) → Exec LockResponse
    unfolding with_owners page_limit ◌>>=◌
    verify_checked none user body = pure (failure 404)
    verify_checked (some r) user none = pure (failure 400)
    verify_checked (some r) user (some (cursor, limit)) = do
      locks ← get_lfs_locks order r.id (page_number cursor) (page_limit limit)
      named ← with_owners [] locks
      pure (answer_verify user (page_limit limit) (page_number cursor) named)

    -- serviceLfsLocksVerify; the body has a cursor and a limit
    unfoldable pub locks_verify :
        Bool → Option Repo → Option ProtoUser → Option (ℕ × ℕ) → Exec LockResponse
    unfolding verify_checked
    locks_verify lfs repo user body =
        if lfs then verify_checked repo user body else pure not_acceptable

  -- the deletion of a lock that is allowed
  unfoldable pub delete_lock : Repo → ℕ → Lock → Exec LockResponse
  unfolding ◌>>=◌
  delete_lock repo id l = do t ← delete_lfs_lock repo.id id; pure (unlocked l)

  -- whether the user may delete the lock of the owner
  unfoldable pub delete_checked :
      Repo → ℕ → Bool → Lock → User → Option ProtoUser → Exec LockResponse
  unfolding delete_lock
  delete_checked repo id force l owner none = pure (failure 401)
  delete_checked repo id true l owner (some u) =
      if u.user.admin then delete_lock repo id l else pure (failure 403)
  delete_checked repo id false l owner (some u) =
      if owner.id == u.user.id then delete_lock repo id l else pure (failure 403)

  -- the lock and its owner
  unfoldable pub delete_found :
      Repo → ℕ → Bool → Option ProtoUser → Result LfsLock → Exec LockResponse
  unfolding delete_checked tried ◌>>=◌
  delete_found repo id force user (err e) = pure (failure 404)
  delete_found repo id force user (ok l) = do
    o ← tried (get_user_by_id env l.user_id)
    elim o [
      | err e ↦ pure (failure 500)
      | ok owner ↦ delete_checked repo id force (lock_of l owner.username) owner user
    ]

  delete_decoded : Option ℕ → Option Bool → Option Repo → Option ProtoUser → Exec LockResponse
  unfolding delete_found tried ◌>>=◌
  delete_decoded none force repo user = pure (failure 400)
  delete_decoded (some id) none repo user = pure (failure 400)
  delete_decoded (some id) (some force) none user = pure (failure 404)
  delete_decoded (some id) (some force) (some r) user =
      tried (get_lfs_lock_by_id id) >>= delete_found r id force user

  -- serviceLfsLocksDelete; the route has the lock's id, and the body whether to force the deletion
  unfoldable pub locks_delete :
      Bool → Option ℕ → Option Bool → Option Repo → Option ProtoUser → Exec LockResponse
  unfolding delete_decoded
  locks_delete lfs id force repo user =
      if lfs then delete_decoded id force repo user else pure not_acceptable
