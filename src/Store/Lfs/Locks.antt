-- ===== src/Store/Lfs/Locks.antt =====
-- The locks that CreateLFSLockForUser (pkg/store/database/lfs.go) makes.
use soft_serve.Base.{
  ℕ, ◌≡◌, refl, sym, ap, Bool, true, false, not, ◌&&◌, ◌||◌, some, List, [], ◌∷◌, ◌++◌, Text,
  text_eq, text_eq_refl, ◌==◌, any, find, contains, arith, Bool-cases, inl, inr,
}
use soft_serve.Store.Schema.{LfsLock, Db, user_ids, repo_ids}
use soft_serve.Store.Exec.{ok, err, duplicate_key, checked, on_error, get_one, one}
use soft_serve.Store.Lfs.{sanitize_path, create_lfs_lock_for_user, get_lfs_lock_for_path}

module _ (repo_id : ℕ) (path : Text) where
  -- the row is a lock on the path
  abbrev on_path : LfsLock → Bool
  on_path l = l.repo_id == repo_id && text_eq l.path (sanitize_path path)

  any-last :
      (ls : List LfsLock) (l : LfsLock) → on_path l ≡ true → any on_path (ls ++ l ∷ []) ≡ true
  any-last [] l e = rw e
  any-last (k ∷ ls) l e = ground (arith, any-last ls l e)

  find-last :
      (ls : List LfsLock) (l : LfsLock)
      → any on_path ls ≡ false
      → on_path l ≡ true
      → find on_path (ls ++ l ∷ []) ≡ some l
  find-last [] l none' e = rw e
  find-last (k ∷ ls) l none' e = ground (arith, find-last ls l)

  new_row-on_path :
      (l : LfsLock) → l.repo_id ≡ repo_id → l.path ≡ sanitize_path path → on_path l ≡ true
  new_row-on_path l e f = ground (arith, e, f, text_eq_refl (sanitize_path path))

  -- Once a user has locked a path of a repository, the path's lock is that user's, and locking the
  -- path again, for that user or for any other, fails with ErrDuplicateKey and changes nothing.
  pub create_lfs_lock_for_user-excludes :
      (user_id other : ℕ) (refname refname' : Text) (before db : Db)
      → create_lfs_lock_for_user repo_id user_id path refname before ≡ (ok tt, db)
      → (lock : LfsLock) × (get_lfs_lock_for_path repo_id path db ≡ (ok lock, db))
        × (lock.user_id ≡ user_id)
        × (create_lfs_lock_for_user repo_id other path refname' db ≡ (err duplicate_key, db))
  unfolding create_lfs_lock_for_user get_lfs_lock_for_path checked on_error get_one one
  create_lfs_lock_for_user-excludes user_id other refname refname' before db h =
      elim (Bool-cases (
        any on_path before.lfs_locks
        || not (contains (repo_ids before) repo_id)
        || not (contains (user_ids before) user_id))) [
          | inl stop ↦ absurd (ground (arith, rw stop at h))
          | inr go ↦
              let lock : LfsLock = record {
                id = before.next_lock;
                path = sanitize_path path;
                user_id = user_id;
                repo_id = repo_id;
                refname = refname;
              } in
              let inserted : db.lfs_locks ≡ before.lfs_locks ++ lock ∷ [] =
                sym (ap (λ p. p.1.lfs_locks) (rw go at h)) in
              let found =
                find-last before.lfs_locks lock (ground (arith, go))
                  (new_row-on_path lock refl refl) in
              let taken = any-last before.lfs_locks lock (new_row-on_path lock refl refl) in
              (lock, rw (inserted, found), refl, rw (inserted, taken))
        ]
