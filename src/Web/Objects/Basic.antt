-- ===== src/Web/Objects/Basic.antt =====
-- pkg/web/git_lfs.go: the handlers of the basic transfer of Git LFS.
use soft_serve.Base.{ℕ, Bool, not, ◌&&◌, Option, none, some, length, Text, if◌then◌else◌}
use soft_serve.Env.{Env}
use soft_serve.Store.Schema.{Repo, LfsObject}
use soft_serve.Store.Lfs.{get_lfs_object_by_oid, create_lfs_object}
use soft_serve.Store.Exec.{Result, ok, err}
use soft_serve.System.{Sys, ◌>>=◌, pure, on_db, on_disk, reads_disk, attempt}
use soft_serve.System.Disk.{Entry, entry}
use soft_serve.System.Cache.{Lru}
use soft_serve.Storage.{fix_path, object_name, put}
use soft_serve.Backend.Lifecycle.{Machine, repository}
use soft_serve.Web.Locks.{is_not_found}
use soft_serve.Web.Objects.{
  Pointer, is_valid, ObjectAnswer, not_acceptable, failure, done, no_answer, file, size_is,
  lfs_root,
}

-- the length in the header: that of the row, or 0
abbrev row_size : Result LfsObject → ℕ
row_size (ok obj) = obj.size
row_size (err e) = 0

-- a directory is opened, and cannot be read
abbrev send_content : ℕ → Option Text → ObjectAnswer
send_content size none = failure 500
send_content size (some c) = file size c

abbrev send : Result LfsObject → Option Entry → ObjectAnswer
send row none = failure 404
send row (some e) = send_content (row_size row) e.content

abbrev send_checked : Result LfsObject → Option Entry → ObjectAnswer
send_checked (ok obj) e = send (ok obj) e
send_checked (err x) e = if is_not_found x then send (err x) e else failure 500

abbrev file_size : Option Text → ℕ
file_size none = 0
file_size (some c) = length c

abbrev verify_row : Pointer → ℕ → Result LfsObject → ObjectAnswer
verify_row p stat (err e) = if is_not_found e then failure 404 else failure 500
verify_row p stat (ok obj) =
    if not (size_is p.size obj.size)
    then failure 400
    else if is_valid p && size_is p.size stat
    then done
    else no_answer

abbrev recorded : Result (Unit {0}) → ObjectAnswer
recorded (ok t) = done
recorded (err e) = failure 500

module _ {C : Type 0} (m : Machine) where
  -- serviceLfsBasicDownload
  unfoldable pub basic_download : Repo → Text → Sys C ObjectAnswer
  unfolding fix_path object_name entry
  basic_download repo oid = do
    row ← attempt (on_db (get_lfs_object_by_oid repo.id oid))
    e ← reads_disk (entry (fix_path (lfs_root m repo) (object_name oid)))
    pure (send_checked row e)

  -- the end of serviceLfsBasicUpload: the row of an object that is stored
  unfoldable pub record_object : Repo → Text → Option ℕ → Sys C ObjectAnswer
  record_object repo oid none = pure (failure 400)
  record_object repo oid (some size) = do
    r ← attempt (on_db (create_lfs_object repo.id oid size))
    pure (recorded r)

  abbrev pub after_put : Sys C ObjectAnswer → Result (Unit {0}) → Sys C ObjectAnswer
  after_put rest (err e) = pure (failure 500)
  after_put rest (ok t) = rest

  -- serviceLfsBasicUpload for an object that has no row
  unfoldable pub store_object : Repo → Repo → Text → Text → Option ℕ → Sys C ObjectAnswer
  unfolding put object_name record_object
  store_object repo found oid content size = do
    r ← attempt (on_disk (put m.faults (lfs_root m repo) (object_name oid) content))
    after_put (record_object found oid size) r

  unfoldable pub upload_found :
      Repo → Repo → Text → Text → Option ℕ → Result LfsObject → Sys C ObjectAnswer
  unfolding store_object
  upload_found repo found oid content size (ok obj) = pure done
  upload_found repo found oid content size (err e) =
      if is_not_found e then store_object repo found oid content size else pure (failure 500)

  -- the repository of the route, once it was looked up
  unfoldable pub upload_to : Repo → Text → Text → Option ℕ → Result Repo → Sys C ObjectAnswer
  unfolding upload_found
  upload_to repo oid content size (err e) = pure (failure 404)
  upload_to repo oid content size (ok r) = do
    row ← attempt (on_db (get_lfs_object_by_oid r.id oid))
    upload_found repo r oid content size row

  -- serviceLfsBasicUpload: the context's repository and the one of the route; `size` is the header
  -- Content-Length, if it is a number
  unfoldable pub basic_upload :
      Env → Lru C → Bool → Repo → Text → Text → Text → Option ℕ → Sys C ObjectAnswer
  unfolding upload_to
  basic_upload env lru binary repo name oid content size =
      if not binary
      then pure (failure 415)
      else do found ← attempt (repository env lru m name); upload_to repo oid content size found

  -- the file that is stored for the pointer
  unfoldable pub verify_stored : Repo → Pointer → Option Entry → Sys C ObjectAnswer
  unfolding is_valid
  verify_stored r p none = pure (failure 404)
  verify_stored r p (some e) = do
    row ← attempt (on_db (get_lfs_object_by_oid r.id p.oid))
    pure (verify_row p (file_size e.content) row)

  verify_checked : Option Repo → Option Pointer → Sys C ObjectAnswer
  unfolding verify_stored fix_path object_name entry
  verify_checked none body = pure (failure 404)
  verify_checked (some r) none = pure (failure 400)
  verify_checked (some r) (some p) = do
    stat ← reads_disk (entry (fix_path (lfs_root m r) (object_name p.oid)))
    verify_stored r p stat

  -- serviceLfsBasicVerify
  unfoldable pub basic_verify : Bool → Option Repo → Option Pointer → Sys C ObjectAnswer
  unfolding verify_checked
  basic_verify lfs repo body = if lfs then verify_checked repo body else pure not_acceptable
