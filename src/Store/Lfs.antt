-- ===== src/Store/Lfs.antt =====
-- pkg/store/database/lfs.go. The order of the paged listing of locks, by the time of the last update,
-- is an argument.
pub mod Locks
use soft_serve.Base.{
  ℕ, ◌+◌, ◌-◌, ◌*◌, take, drop, length, Bool, not, ◌&&◌, ◌||◌, List, [], ◌∷◌, ◌++◌, Text, str,
  text_eq, trim_prefix, ◌==◌, leb, any, contains, select, if◌then◌else◌,
}
use mathlib.Core.List.{reverse}
use soft_serve.Store.Schema.{LfsLock, LfsObject, user_ids, repo_ids}
use soft_serve.Store.Repos.{titled}
use soft_serve.Store.Exec.{
  Exec, ◌>>=◌, pure, gets, get_one, exec, checked, constraint, on_error, wrap_error,
}

-- unicode.IsSpace
unfoldable pub is_space : ℕ → Bool
is_space c =
    (leb 0x09 c && leb c 0x0d)
    || c == 0x20
    || c == 0x85
    || c == 0xa0
    || c == 0x1680
    || (leb 0x2000 c && leb c 0x200a)
    || c == 0x2028
    || c == 0x2029
    || c == 0x202f
    || c == 0x205f
    || c == 0x3000

abbrev pub skip_space : Text → Text
skip_space [] = []
skip_space (c ∷ s) = let rest = skip_space s in if is_space c then rest else c ∷ s

-- strings.TrimSpace
unfoldable pub trim_space : Text → Text
trim_space s = reverse (skip_space (reverse (skip_space s)))

-- sanitizePath
unfoldable pub sanitize_path : Text → Text
sanitize_path path = trim_prefix (trim_space path) (str "/")

-- CreateLFSLockForUser: the path is unique in its repository; repository and user exist
unfoldable pub create_lfs_lock_for_user : ℕ → ℕ → Text → Text → Exec (Unit {0})
create_lfs_lock_for_user repo_id user_id path refname = on_error wrap_error λ db.
    checked
      (any (λ l. l.repo_id == repo_id && text_eq l.path (sanitize_path path)) db.lfs_locks
        || not (contains (repo_ids db) repo_id)
        || not (contains (user_ids db) user_id))
      constraint tt
      (λ d. record d {
        lfs_locks =
            d.lfs_locks
            ++ record {
              id = d.next_lock;
              path = sanitize_path path;
              user_id = user_id;
              repo_id = repo_id;
              refname = refname;
            }
              ∷ [];
        next_lock = d.next_lock + 1;
      })
      db

-- GetLFSLocks; `order` is ORDER BY updated_at DESC
unfoldable pub get_lfs_locks : (List LfsLock → List LfsLock) → ℕ → ℕ → ℕ → Exec (List LfsLock)
get_lfs_locks order repo_id page limit =
    let first = (if page == 0 then 1 else page) - 1 in
    gets (λ db.
      take limit (drop (first * limit) (order (select (λ l. l.repo_id == repo_id) db.lfs_locks))))

-- GetLFSLocksWithCount
unfoldable pub get_lfs_locks_with_count :
    (List LfsLock → List LfsLock) → ℕ → ℕ → ℕ → Exec (List LfsLock × ℕ)
get_lfs_locks_with_count order repo_id page limit = do
  locks ← get_lfs_locks order repo_id page limit
  count ← gets (λ db. length (select (λ l. l.repo_id == repo_id) db.lfs_locks))
  pure (locks, count)

-- GetLFSLocksForUser
unfoldable pub get_lfs_locks_for_user : ℕ → ℕ → Exec (List LfsLock)
get_lfs_locks_for_user repo_id user_id =
    gets (λ db. select (λ l. l.repo_id == repo_id && l.user_id == user_id) db.lfs_locks)

-- GetLFSLockForPath
unfoldable pub get_lfs_lock_for_path : ℕ → Text → Exec LfsLock
get_lfs_lock_for_path repo_id path =
    get_one (λ db. db.lfs_locks) (λ l. l.repo_id == repo_id && text_eq l.path (sanitize_path path))

-- GetLFSLockForUserPath
unfoldable pub get_lfs_lock_for_user_path : ℕ → ℕ → Text → Exec LfsLock
get_lfs_lock_for_user_path repo_id user_id path =
    get_one (λ db. db.lfs_locks)
      (λ l. l.repo_id == repo_id && l.user_id == user_id && text_eq l.path (sanitize_path path))

-- GetLFSLockByID
unfoldable pub get_lfs_lock_by_id : ℕ → Exec LfsLock
get_lfs_lock_by_id id = get_one (λ db. db.lfs_locks) (λ l. l.id == id)

-- GetLFSLockForUserByID
unfoldable pub get_lfs_lock_for_user_by_id : ℕ → ℕ → ℕ → Exec LfsLock
get_lfs_lock_for_user_by_id repo_id user_id id =
    get_one (λ db. db.lfs_locks) (λ l. l.id == id && l.user_id == user_id && l.repo_id == repo_id)

-- DeleteLFSLockForUserByID
unfoldable pub delete_lfs_lock_for_user_by_id : ℕ → ℕ → ℕ → Exec (Unit {0})
delete_lfs_lock_for_user_by_id repo_id user_id id = exec (λ db. record db {
  lfs_locks =
      select (λ l. not (l.repo_id == repo_id && l.user_id == user_id && l.id == id)) db.lfs_locks;
})

-- DeleteLFSLock
unfoldable pub delete_lfs_lock : ℕ → ℕ → Exec (Unit {0})
delete_lfs_lock repo_id id = exec (λ db. record db {
  lfs_locks = select (λ l. not (l.repo_id == repo_id && l.id == id)) db.lfs_locks;
})

-- CreateLFSObject: the object is unique in its repository, which exists
unfoldable pub create_lfs_object : ℕ → Text → ℕ → Exec (Unit {0})
create_lfs_object repo_id oid size = on_error wrap_error λ db.
    checked
      (any (λ o. o.repo_id == repo_id && text_eq o.oid oid) db.lfs_objects
        || not (contains (repo_ids db) repo_id))
      constraint tt
      (λ d. record d {
        lfs_objects =
            d.lfs_objects
            ++ record { id = d.next_object; oid = oid; size = size; repo_id = repo_id } ∷ [];
        next_object = d.next_object + 1;
      })
      db

-- DeleteLFSObjectByOid
unfoldable pub delete_lfs_object_by_oid : ℕ → Text → Exec (Unit {0})
delete_lfs_object_by_oid repo_id oid = exec (λ db. record db {
  lfs_objects = select (λ o. not (o.repo_id == repo_id && text_eq o.oid oid)) db.lfs_objects;
})

-- GetLFSObjectByOid
unfoldable pub get_lfs_object_by_oid : ℕ → Text → Exec LfsObject
get_lfs_object_by_oid repo_id oid =
    get_one (λ db. db.lfs_objects) (λ o. o.repo_id == repo_id && text_eq o.oid oid)

-- GetLFSObjects
unfoldable pub get_lfs_objects : ℕ → Exec (List LfsObject)
get_lfs_objects repo_id = gets (λ db. select (λ o. o.repo_id == repo_id) db.lfs_objects)

-- GetLFSObjectsByName: the name is compared as it is given
unfoldable pub get_lfs_objects_by_name : Text → Exec (List LfsObject)
get_lfs_objects_by_name name =
    gets (λ db. select (λ o. any (λ r. o.repo_id == r.id && titled name r) db.repos) db.lfs_objects)
