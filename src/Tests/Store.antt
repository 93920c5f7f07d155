-- ===== src/Tests/Store.antt =====
-- The stores at a concrete input.
use soft_serve.Store.Lfs.{create_lfs_lock_for_user, get_lfs_lock_for_path}
use soft_serve.Store.Lfs.Locks.{create_lfs_lock_for_user-excludes}
use soft_serve.Store.Schema.{Db, LfsLock}
use soft_serve.Store.Exec.{ok, err, duplicate_key, on_error, checked}
use soft_serve.Tests.Data.{db}
use soft_serve.Base.{◌≡◌, refl, false, List, [], ◌∷◌, str}
use soft_serve.Base.Int.{pos}
use soft_serve.Store.Schema.{empty_db}
use soft_serve.Store.Consistent.{IsConsistent}
use soft_serve.Store.Requests.{
  Request, serve, new_user, new_repo, add_collab, new_lock, delete_user, set_username,
}
use soft_serve.Store.Requests.Consistency.{serve-IsConsistent}
use soft_serve.Tests.Data.{env}

empty_db-IsConsistent : IsConsistent empty_db
empty_db-IsConsistent = record {
  usernames = tt;
  user_ids_distinct = tt;
  user_ids_below = tt;
  keys = tt;
  key_user = tt;
  key_ids = (tt, tt);
  repo_names = tt;
  repo_ids_distinct = tt;
  repo_ids_below = tt;
  repo_user = tt;
  collabs = tt;
  collab_user = tt;
  collab_repo = tt;
  collab_ids = (tt, tt);
  tokens = tt;
  token_user = tt;
  token_ids = (tt, tt);
  objects = tt;
  object_repo = tt;
  object_ids = (tt, tt);
  locks = tt;
  lock_user = tt;
  lock_repo = tt;
  lock_ids = (tt, tt);
  webhook_urls = tt;
  webhook_ids_distinct = tt;
  webhook_ids_below = tt;
  webhook_repo = tt;
  events = tt;
  event_webhook = tt;
  event_ids = (tt, tt);
  deliveries = tt;
  delivery_webhook = tt;
}

-- a user who shares a repository, takes a lock and leaves
abbrev busy_day : List Request
busy_day =
    new_user (str "ann") false (str "key" ∷ [])
    ∷ new_user (str "bob") false []
    ∷ new_repo (str "a") 1 [] [] false false false
    ∷ add_collab (str "bob") (str "a") (pos 2)
    ∷ new_lock 1 2 (str "x.bin") (str "main")
    ∷ set_username (str "ann") (str "bob")
    ∷ delete_user (str "ann")
    ∷ []

serve-IsConsistent_example : IsConsistent (serve env empty_db busy_day)
serve-IsConsistent_example = serve-IsConsistent env empty_db busy_day empty_db-IsConsistent

abbrev locked_db : Db
locked_db = (create_lfs_lock_for_user 1 2 (str " /x.bin") (str "main") db).1

locked : create_lfs_lock_for_user 1 2 (str " /x.bin") (str "main") db ≡ (ok tt, locked_db)
unfolding create_lfs_lock_for_user on_error checked
locked = refl

create_lfs_lock_for_user-excludes_example :
    (lock : LfsLock) × (get_lfs_lock_for_path 1 (str " /x.bin") locked_db ≡ (ok lock, locked_db))
    × (lock.user_id ≡ 2)
    × (create_lfs_lock_for_user 1 1 (str " /x.bin") (str "dev") locked_db
        ≡ (err duplicate_key, locked_db))
create_lfs_lock_for_user-excludes_example =
    create_lfs_lock_for_user-excludes 1 (str " /x.bin") 2 1 (str "main") (str "dev") db locked_db
      locked
