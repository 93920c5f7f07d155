-- ===== src/Web/Objects/Batch.antt =====
-- pkg/web/git_lfs.go: serviceLfsBatch.
use soft_serve.Base.{
  ℕ, Bool, true, false, not, ◌&&◌, Option, none, some, List, [], ◌∷◌, ◌++◌, map, any, Text, str,
  text_eq, ◌==◌, if◌then◌else◌,
}
use soft_serve.Base.Int.{ltbℤ}
use soft_serve.Access.{AccessLevel, read_write_access}
use soft_serve.Store.Schema.{Repo, LfsObject}
use soft_serve.Store.Lfs.{get_lfs_object_by_oid, create_lfs_object}
use soft_serve.Store.Exec.{Result, ok, err}
use soft_serve.System.{Sys, ◌>>=◌, pure, on_db, reads_disk, attempt}
use soft_serve.Storage.{object_name, storage_exists}
use soft_serve.Backend.Lifecycle.{Machine}
use soft_serve.Web.Locks.{is_not_found}
use soft_serve.Web.Objects.{
  Pointer, is_valid, Link, ObjectResponse, object_error, download, upload, ObjectAnswer,
  not_acceptable, failure, write_required, batch, BatchRequest, size_is, size_of, lfs_root,
}

abbrev link : Text → Text → Text → Link
link base auth oid = record { href = base ++ b'/' ∷ oid; authorization = auth }

-- the answer of a batch for an object to upload
unfoldable pub upload_object : Text → Text → Pointer → Pointer × ObjectResponse
unfolding is_valid
upload_object base auth o =
    if is_valid o
    then (o, upload (link base auth o.oid) (link base auth (str "verify")))
    else (o, object_error 422)

abbrev cons_object :
    Pointer
    → Option ObjectResponse
    → Option (List (Pointer × ObjectResponse))
    → Option (List (Pointer × ObjectResponse))
cons_object o none rest = none
cons_object o (some r) none = none
cons_object o (some r) (some rest) = some ((o, r) ∷ rest)

abbrev answer_batch : Option (List (Pointer × ObjectResponse)) → ObjectAnswer
answer_batch none = failure 500
answer_batch (some objects) = batch objects

abbrev is_empty : {A : Type 0} → List A → Bool
is_empty [] = true
is_empty (x ∷ xs) = false

module _ {C : Type 0} (m : Machine) (repo : Repo) where
  -- an object whose row has the id and the size; without a row, both are 0
  unfoldable pub download_row : Text → Text → Pointer → Bool → ℕ → ℕ → Sys C (Option ObjectResponse)
  unfolding is_valid
  download_row base auth o exist id size =
      if not exist
      then pure (some (object_error 404))
      else if not (size_is o.size size)
      then pure (some (object_error 422))
      else if not (is_valid o)
      then pure (some (object_error 422))
      else if id == 0
      then (attempt (on_db (create_lfs_object repo.id o.oid (size_of o.size))) >>= λ r.
          pure (elim r [ ok t ↦ some (download (link base auth o.oid)) | err e ↦ none ]))
      else pure (some (download (link base auth o.oid)))

  unfoldable pub download_found :
      Text → Text → Pointer → Bool → Result LfsObject → Sys C (Option ObjectResponse)
  unfolding download_row
  download_found base auth o exist (ok obj) = download_row base auth o exist obj.id obj.size
  download_found base auth o exist (err e) =
      if is_not_found e then download_row base auth o exist 0 0 else pure none

  abbrev download_stat : Text → Text → Pointer → Result Bool → Sys C (Option ObjectResponse)
  download_stat base auth o (err e) = pure none
  download_stat base auth o (ok exist) =
      attempt (on_db (get_lfs_object_by_oid repo.id o.oid)) >>= download_found base auth o exist

  -- the answer of a batch for an object to download; `none` is an internal error
  unfoldable pub download_object : Text → Text → Pointer → Sys C (Option ObjectResponse)
  unfolding download_found storage_exists object_name
  download_object base auth o = do
    exist ← reads_disk (storage_exists m.stat_fails (lfs_root m repo) (object_name o.oid))
    download_stat base auth o exist

  abbrev after_object :
      Sys C (Option (List (Pointer × ObjectResponse)))
      → Pointer
      → Option ObjectResponse
      → Sys C (Option (List (Pointer × ObjectResponse)))
  after_object more o none = pure none
  after_object more o (some r) = do rest ← more; pure (cons_object o (some r) rest)

  -- the loop of a batch that downloads
  unfoldable pub download_objects :
      Text → Text → List Pointer → Sys C (Option (List (Pointer × ObjectResponse)))
  unfolding download_object
  download_objects base auth [] = pure (some [])
  download_objects base auth (o ∷ os) = do
    r ← download_object base auth o
    after_object (download_objects base auth os) o r

  -- a batch by its operation
  unfoldable pub batch_operation : Text → Text → AccessLevel → BatchRequest → Sys C ObjectAnswer
  unfolding download_objects upload_object
  batch_operation base auth level req =
      if text_eq req.operation (str "download")
      then (download_objects base auth req.objects >>= λ o. pure (answer_batch o))
      else if text_eq req.operation (str "upload")
      then (if ltbℤ level read_write_access
          then pure write_required
          else pure (batch (map (upload_object base auth) req.objects)))
      else pure (failure 422)

module _ {C : Type 0} (m : Machine) where
  batch_decoded : Text → Text → AccessLevel → Option Repo → Option BatchRequest → Sys C ObjectAnswer
  unfolding batch_operation
  batch_decoded base auth level repo none = pure (failure 422)
  batch_decoded base auth level repo (some req) =
      if not (is_empty req.transfers) && not (any (λ t. text_eq t (str "basic")) req.transfers)
      then pure (failure 422)
      else if is_empty req.objects
      then pure (failure 422)
      else elim repo [
        | none ↦ pure (failure 404)
        | some r ↦ batch_operation m r base auth level req
      ]

  -- serviceLfsBatch; `base` is baseHref, and `auth` the header Authorization
  unfoldable pub lfs_batch :
      Bool → Text → Text → AccessLevel → Option Repo → Option BatchRequest → Sys C ObjectAnswer
  unfolding batch_decoded
  lfs_batch lfs base auth level repo body =
      if lfs then batch_decoded base auth level repo body else pure not_acceptable
