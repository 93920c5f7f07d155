-- ===== src/Web/Objects/Stored.antt =====
-- The handlers of Git LFS objects in pkg/web/git_lfs.go: what they answer and store.
use soft_serve.Base.{
  ℕ, ◌≡◌, refl, sym, ap, true, false, not, ◌&&◌, ◌||◌, none, some, [], ◌∷◌, ◌++◌, any, contains,
  length, Text, text_eq, text_eq_refl, find, ◌==◌, arith, Bool-cases, inl, inr, if◌then◌else◌,
}
use soft_serve.Store.Schema.{Repo, LfsObject, Db, repo_ids}
use soft_serve.Store.Exec
use soft_serve.Store.Exec.{Result, ok, err, get_one, one, checked}
use soft_serve.Store.Found.{find-append_none}
use soft_serve.Store.Lfs.{get_lfs_object_by_oid, create_lfs_object}
use soft_serve.System.{World, ◌>>=◌, pure, on_db, on_disk, reads_disk, attempt}
use soft_serve.System.Disk.{FilePath, Files, Faults, Entry, entry, exists, parent, os_mkdir_all}
use soft_serve.Storage.{fix_path, object_name, storage_exists, put}
use soft_serve.System.Written.{entry-os_write_file}
use soft_serve.Backend.Lifecycle.{Machine}
use soft_serve.Web.Objects.{
  Pointer, object_error, no_answer, file, done, lfs_root, is_valid, size_is,
}
use soft_serve.Web.Objects.Batch.{download_object, download_found, download_row}
use soft_serve.Web.Objects.Basic.{
  upload_to, upload_found, basic_download, store_object, record_object, basic_verify,
}

module _ {C : Type 0} (m : Machine) where
  -- A batch that downloads asks for an object without a row that is not said to be empty. Then os.Stat
  -- of the path made of its id, valid or not, decides: the answer is an internal error if os.Stat fails
  -- otherwise than for a missing path, code 422 if the path names something, and 404 if it does not; no
  -- link is given, and nothing changes.
  pub download_object-no_row :
      (repo : Repo) (base auth : Text) (o : Pointer) (w : World C)
      → find (λ r. r.repo_id == repo.id && text_eq r.oid o.oid) w.db.lfs_objects ≡ none
      → size_is o.size 0 ≡ false
      → download_object m repo base auth o w ≡ (
        ok (
            if m.stat_fails (fix_path (lfs_root m repo) (object_name o.oid)) w.disk
            then none
            else some (
                object_error (
                  if exists (fix_path (lfs_root m repo) (object_name o.oid)) w.disk
                  then 422
                  else 404))),
        w,
      )
  unfolding download_object download_found download_row storage_exists get_lfs_object_by_oid get_one
      one ◌>>=◌ attempt on_db reads_disk pure
  download_object-no_row repo base auth o w unrecorded sized =
      elim (Bool-cases (m.stat_fails (fix_path (lfs_root m repo) (object_name o.oid)) w.disk)) [
        | inl fails ↦ rw fails refl
        | inr stat ↦
            elim (Bool-cases (exists (fix_path (lfs_root m repo) (object_name o.oid)) w.disk)) [
              | inl there ↦ rw (stat, unrecorded, there, sized) refl
              | inr gone ↦ rw (stat, unrecorded, gone) refl
            ]
      ]

  -- The handler that verifies an upload writes no answer, so that the client gets status 200, when the
  -- row has the size that the client names and the stored file has another length.
  pub basic_verify-other_length :
      (repo : Repo) (p : Pointer) (obj : LfsObject) (e : Entry) (c : Text) (w : World C)
      → entry (fix_path (lfs_root m repo) (object_name p.oid)) w.disk ≡ some e
      → e.content ≡ some c
      → find (λ r. r.repo_id == repo.id && text_eq r.oid p.oid) w.db.lfs_objects ≡ some obj
      → size_is p.size obj.size ≡ true
      → size_is p.size (length c) ≡ false
      → basic_verify m true (some repo) (some p) w ≡ (ok no_answer, w)
  unfolding basic_verify get_lfs_object_by_oid get_one one ◌>>=◌ attempt on_db reads_disk pure
  basic_verify-other_length repo p obj e c w stored content row named other =
      elim (Bool-cases (is_valid p)) [
        | inl valid ↦ rw (stored, row, content, named, other, valid) refl
        | inr invalid ↦ rw (stored, row, content, named, other, invalid) refl
      ]

-- the file of an object that was stored
stored_entry :
    (faults : Faults) (root : FilePath) (oid content : Text) (d after : Files)
    → put faults root (object_name oid) content d ≡ (ok tt, after)
    → entry (fix_path root (object_name oid)) after
      ≡ some (record { at = fix_path root (object_name oid); content = some content })
unfolding put
stored_entry faults root oid content d after run =
    split (os_mkdir_all faults (parent (fix_path root (object_name oid))) d).0
      (os_mkdir_all faults (parent (fix_path root (object_name oid))) d).1 refl
  where
    split :
        (r : Result (Unit {0})) (d' : Files)
        → os_mkdir_all faults (parent (fix_path root (object_name oid))) d ≡ (r, d')
        → entry (fix_path root (object_name oid)) after
          ≡ some (record { at = fix_path root (object_name oid); content = some content })
    split (ok t) d' e =
        entry-os_write_file faults (fix_path root (object_name oid)) content d' after (rw e at run)
    split (err x) d' e = absurd (ground (arith, rw e at run))

recorded_row :
    (repo_id : ℕ) (oid : Text) (size : ℕ) (db after : Db)
    → create_lfs_object repo_id oid size db ≡ (ok tt, after)
    → (obj : LfsObject) × (obj.size ≡ size)
      × (find (λ r. r.repo_id == repo_id && text_eq r.oid oid) after.lfs_objects ≡ some obj)
unfolding create_lfs_object checked Exec.on_error
recorded_row repo_id oid size db after run =
    elim (Bool-cases (
      any (λ o. o.repo_id == repo_id && text_eq o.oid oid) db.lfs_objects
      || not (contains (repo_ids db) repo_id))) [
        | inl stop ↦ absurd (ground (arith, rw stop at run))
        | inr go ↦
            let obj : LfsObject = record {
              id = db.next_object;
              oid = oid;
              size = size;
              repo_id = repo_id;
            } in
            let inserted : after.lfs_objects ≡ db.lfs_objects ++ obj ∷ [] =
              sym (ap (λ p. p.1.lfs_objects) (rw go at run)) in
            (
              obj,
              refl,
              rw inserted (
                  find-append_none (λ r. r.repo_id == repo_id && text_eq r.oid oid) db.lfs_objects
                    obj (ground (arith, go)) (ground (arith, text_eq_refl oid))),
            )
      ]

module _ {C : Type 0} (m : Machine) where
  -- When an object without a row has been uploaded with status 200, downloading it gives the content
  -- that was uploaded, with the length that the upload's header named.
  pub basic_download-upload_to :
      (repo : Repo) (oid content : Text) (size : ℕ) (w after : World C)
      → find (λ r. r.repo_id == repo.id && text_eq r.oid oid) w.db.lfs_objects ≡ none
      → upload_to m repo oid content (some size) (ok repo) w ≡ (ok done, after)
      → basic_download m repo oid after ≡ (ok (file size content), after)
  unfolding upload_to upload_found store_object record_object basic_download get_lfs_object_by_oid
      get_one one ◌>>=◌ attempt on_db on_disk reads_disk pure
  basic_download-upload_to repo oid content size w after fresh run =
      split (put m.faults (lfs_root m repo) (object_name oid) content w.disk).0
        (put m.faults (lfs_root m repo) (object_name oid) content w.disk).1 refl
    where
      split :
          (r : Result (Unit {0})) (d : Files)
          → put m.faults (lfs_root m repo) (object_name oid) content w.disk ≡ (r, d)
          → basic_download m repo oid after ≡ (ok (file size content), after)
      split (err x) d e = absurd (ground (arith, rw (fresh, e) at run))
      split (ok t) d e =
          split_row (create_lfs_object repo.id oid size w.db).0
            (create_lfs_object repo.id oid size w.db).1 refl
        where
          split_row :
              (r : Result (Unit {0})) (db : Db)
              → create_lfs_object repo.id oid size w.db ≡ (r, db)
              → basic_download m repo oid after ≡ (ok (file size content), after)
          split_row (err x) db k = absurd (ground (arith, rw (fresh, e, k) at run))
          split_row (ok u) db k =
              let end : after ≡ record w { db = db; disk = d } =
                sym (ap (λ p. p.1) (rw (fresh, e, k) at run)) in
              let (obj, sized, row) = recorded_row repo.id oid size w.db db k in
              let stored = stored_entry m.faults (lfs_root m repo) oid content w.disk d e in
              rw (end, row, stored, sized) refl
