-- ===== src/Tests/Lfs.antt =====
-- The handlers of Git LFS at concrete inputs.
use soft_serve.Lfs as Printing
use soft_serve.Lfs.{read, read_pointer_from_buffer}
use soft_serve.Lfs.Printed.{read_pointer_from_buffer-string}
use soft_serve.Base.{
  ◌≡◌, refl, true, false, none, some, [], ◌∷◌, ◌++◌, Text, str, text_eq, ◌≤◌, ◌⊎◌, arith,
  if◌then◌else◌,
}
use soft_serve.Base.Int.{pos}
use soft_serve.Store.Schema.{LfsLock, LfsObject, Db}
use soft_serve.Store.Exec
use soft_serve.Store.Exec.{Result, ok, err}
use soft_serve.System.{World}
use soft_serve.System.Disk.{Files, FilePath, entry, exists, is_under, path_eq}
use soft_serve.Storage.{fix_path, object_name, relative_path}
use soft_serve.Paths.{join_below, resolve_all, resolve, split}
use soft_serve.Web.Locks.{LockResponse, unlocked, lock_of, locks_delete, locks_get, media_type}
use soft_serve.Web.Locks.Deletes.{IsUnlocked, locks_delete-IsUnlocked}
use soft_serve.Web.Locks.Pages.{shown, locks_get-bound, locks_get-any_repo}
use soft_serve.Web.Objects.{Pointer, is_valid, object_error, file, done, lfs_root}
use soft_serve.Web.Objects.Batch.{download_object}
use soft_serve.Web.Objects.Basic.{basic_download, upload_to}
use soft_serve.Web.Objects.Stored.{download_object-no_row, basic_download-upload_to}
use soft_serve.Tests.Data.{env, db, bob_session, open_repo, secret_repo}
use soft_serve.Tests.Lifecycle.{Memory, machine}

-- bob's lock of a file of ann's public repository
abbrev bob_lock : LfsLock
bob_lock = record { id = 7; path = str "x.bin"; user_id = 2; repo_id = 1; refname = [] }

abbrev locked : Db
locked = record db { lfs_locks = bob_lock ∷ []; next_lock = 8 }

deleted_run :
    locks_delete env true (some 7) (some false) (some open_repo) (some bob_session) locked
    ≡ (ok (unlocked (lock_of bob_lock (str "bob"))), record locked { lfs_locks = [] })
unfolding locks_delete soft_serve.Store.Lfs.get_lfs_lock_by_id soft_serve.Store.Users.get_user_by_id
    soft_serve.Store.Lfs.delete_lfs_lock
deleted_run = refl

locks_delete-IsUnlocked_example :
    (record locked { lfs_locks = [] } ≡ locked)
    ⊎ IsUnlocked 7
        (some false)
        (some open_repo)
        (some bob_session)
        locked
        (record locked { lfs_locks = [] })
locks_delete-IsUnlocked_example =
    locks_delete-IsUnlocked env true 7 (some false) (some open_repo) (some bob_session) locked
      (record locked { lfs_locks = [] }) (ok (unlocked (lock_of bob_lock (str "bob")))) deleted_run

locks_get-bound_example :
    (r : LockResponse) × (locks_get env (λ ls. ls) media_type (some open_repo) [] 0 0 500 locked
      ≡ (ok r, locked))
    × (shown r ≤ 100)
locks_get-bound_example =
    locks_get-bound env (λ ls. ls) media_type (some open_repo) [] 0 0 500 locked

locks_get-any_repo_example :
    locks_get env (λ ls. ls) media_type (some open_repo) [] 7 0 0 locked
    ≡ locks_get env (λ ls. ls) media_type (some secret_repo) [] 7 0 0 locked
locks_get-any_repo_example =
    locks_get-any_repo env (λ ls. ls) media_type [] 7 0 0 locked open_repo secret_repo (omega arith)

abbrev lfs_dir : FilePath
lfs_dir = str "data" ∷ str "lfs" ∷ str "1" ∷ str "objects" ∷ []

-- a secret file outside the objects' directories, and an object whose row has another size
abbrev lfs_files : Files
lfs_files =
    record { at = str "data" ∷ str "key" ∷ []; content = some (str "k") }
    ∷ record { at = lfs_dir ++ str "ab" ∷ str "cd" ∷ str "abcde" ∷ []; content = some (str "xy") }
    ∷ []

abbrev lfs_object : LfsObject
lfs_object = record { id = 1; oid = str "abcde"; size = 5; repo_id = 1 }

abbrev lfs_world : World Memory
lfs_world = record {
  db = record db { lfs_objects = lfs_object ∷ []; next_object = 2 };
  disk = lfs_files;
  cache = λ name. none;
}

-- an id that leads out of the objects' directory, to the secret file
abbrev outside : Pointer
outside = record { oid = str "..//../key"; size = pos 1 }

download_object-no_row_example : download_object machine open_repo [] [] outside lfs_world ≡ (
  ok (
      some (
        object_error (
          if exists (fix_path (lfs_root machine open_repo) (object_name outside.oid)) lfs_world.disk
          then 422
          else 404))),
  lfs_world,
)
unfolding text_eq
download_object-no_row_example =
    download_object-no_row machine open_repo [] [] outside lfs_world refl refl

-- the secret file is the one that the answer is about
outside_exists :
    exists (fix_path (lfs_root machine open_repo) (object_name outside.oid)) lfs_world.disk ≡ true
unfolding exists fix_path object_name relative_path join_below resolve_all split entry path_eq
    is_under resolve text_eq
outside_exists = refl

abbrev claimed : Pointer
claimed = record { oid = str "abcde"; size = pos 5 }

stored_run :
    entry (fix_path (lfs_root machine open_repo) (object_name claimed.oid)) lfs_world.disk
    ≡ some (record {
      at = lfs_dir ++ str "ab" ∷ str "cd" ∷ str "abcde" ∷ [];
      content = some (str "xy");
    })
unfolding entry fix_path soft_serve.Paths.join_below soft_serve.Paths.resolve_all
    soft_serve.Paths.split object_name text_eq soft_serve.Web.Decimal.decimal
stored_run = refl

abbrev uploaded : World Memory
uploaded =
    (upload_to machine open_repo (str "12345") (str "new") (some 9) (ok open_repo) lfs_world).1

upload_run :
    upload_to machine open_repo (str "12345") (str "new") (some 9) (ok open_repo) lfs_world
    ≡ (ok done, uploaded)
unfolding upload_to soft_serve.System.◌>>=◌ soft_serve.System.attempt soft_serve.System.on_db
    soft_serve.Store.Lfs.get_lfs_object_by_oid Exec.get_one text_eq soft_serve.System.on_disk
    soft_serve.Paths.join_below soft_serve.Paths.resolve_all soft_serve.Paths.split
    soft_serve.Web.Decimal.decimal soft_serve.Store.Lfs.create_lfs_object Exec.on_error Exec.checked
upload_run = refl

basic_download-upload_to_example :
    basic_download machine open_repo (str "12345") uploaded ≡ (ok (file 9 (str "new")), uploaded)
unfolding text_eq
basic_download-upload_to_example =
    basic_download-upload_to machine open_repo (str "12345") (str "new") 9 lfs_world uploaded refl
      upload_run

abbrev oid_64 : Text
oid_64 = str "4d7a214614ab2935c943f9e0ff69d22eadbb8f32b1258daaa5e2ca24d17e2393"

read_pointer_from_buffer-string_example :
    read_pointer_from_buffer (Printing.string (record { oid = oid_64; size = pos 12345 }))
    ≡ read (record { oid = oid_64; size = pos 12345 })
unfolding is_valid
read_pointer_from_buffer-string_example =
    read_pointer_from_buffer-string oid_64 12345 (omega arith) refl
