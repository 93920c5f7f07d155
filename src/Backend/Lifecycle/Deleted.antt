-- ===== src/Backend/Lifecycle/Deleted.antt =====
-- DeleteRepository of pkg/backend/repo.go: what it leaves.
use soft_serve.Base.{
  ◌≡◌, refl, sym, ap, Bool, true, false, none, some, Text, text_eq, find, any, arith, Bool-cases,
  Option-cases, inl, inr,
}
use soft_serve.Env.{Env}
use soft_serve.Names.{sanitize_repo}
use soft_serve.Store.Schema.{Repo, delete_repos}
use soft_serve.Store.Exec
use soft_serve.Store.Exec.{
  Error, Result, ok, err, exec, gets, get_one, one, repo_not_found, record_not_found,
}
use soft_serve.Store.Found.{find-none, any-select, find-select_other}
use soft_serve.Store.Lfs.{get_lfs_objects_by_name}
use soft_serve.Store.Repos.{titled, get_repo_by_name, delete_repo_by_name}
use soft_serve.System.{
  World, Sys, ◌>>=◌, on_cache, on_db, on_disk, reads_disk, on_error, attempt, transaction, raise,
}
use soft_serve.System.Disk.{FilePath, exists, is_under, os_remove_all}
use soft_serve.System.Removed.{exists-without, os_remove_all_ok}
use soft_serve.System.Cache.{Lru, LruLaws, hit}
use soft_serve.System.Keeps.{unchanged_after}
use soft_serve.System.Bind.{sys_bind_ok, transaction_ok, deferred_ok}
use soft_serve.Backend.Lifecycle.{
  Machine, path_of, load, repository, delete_objects, delete_body, delete_transaction,
  delete_repository, succeed, on_delete,
}
use soft_serve.Backend.Lifecycle.Cached.{succeed_same, looked_db}
use soft_serve.Backend.Lifecycle.Coherent.{IsSteady, titled_apart}
use soft_serve.Backend.Lifecycle.Kept.{delete_objects-Quiet}

module _ {C : Type 0} (env : Env) (lru : Lru C) (laws : LruLaws lru) (m : Machine) where
  -- the repository of the name is gone; every other is as it was
  pub record IsDeleted (name : Text) (before after : World C) : Type 0 where
    pub no_row : any (titled name) after.db.repos ≡ false
    pub no_files :
        (p : FilePath) → is_under (path_of env m name) p ≡ true → exists p after.disk ≡ false
    pub others :
        (other : Text)
        → text_eq name other ≡ false
        → find (titled other) after.db.repos ≡ find (titled other) before.db.repos

  removed_files :
      (name : Text) (w after : World C)
      → on_disk (os_remove_all m.faults (path_of env m name)) w ≡ (ok tt, after)
      → (after.db ≡ w.db)
        × ((p : FilePath) → is_under (path_of env m name) p ≡ true → exists p after.disk ≡ false)
  unfolding on_disk
  removed_files name w after run =
      let end = ap (λ p. p.1) run in
      let removed : os_remove_all m.faults (path_of env m name) w.disk ≡ (ok tt, after.disk) =
        ground (arith, run) in
      let left = os_remove_all_ok m.faults (path_of env m name) w.disk after.disk removed in
      (sym (ap (λ v. v.db) end), λ p h. rw left (exists-without (path_of env m name) p w.disk h))

  emptied_row :
      (name : Text) (r : Repo) (there : Bool) (w after : World C)
      → IsSteady env name
      → delete_body env lru m (sanitize_repo env name) (ok r) there w ≡ (ok tt, after)
      → IsDeleted (sanitize_repo env name) w after
  unfolding delete_body on_db on_error Exec.on_error get_lfs_objects_by_name gets exec
      delete_repo_by_name
  emptied_row name r there w after steady run =
      let (objs, w1, listed, run1) = sys_bind_ok _ _ tt w after run in
      let (_, w2, cleared, run2) = sys_bind_ok _ _ tt w1 after run1 in
      let (_, w3, deleted, run3) = sys_bind_ok _ _ tt w2 after run2 in
      let same1 : w1.db ≡ w.db = sym (ap (λ p. p.1.db) listed) in
      let same2 =
        (unchanged_after (delete_objects env lru m r.id objs)
          (λ P. delete_objects-Quiet env lru laws m P r.id objs) _ w1 w2 cleared).0 in
      let tables : w3.db ≡ delete_repos (titled (sanitize_repo env name)) w.db =
        rw (← same1, ← same2, ← steady) (sym (ap (λ p. p.1.db) deleted)) in
      let (same, files) = removed_files (sanitize_repo env name) w3 after run3 in
      unfold delete_repos in
      record {
        no_row = rw (same, tables) (any-select (titled (sanitize_repo env name)) w.db.repos);
        no_files = files;
        others = λ other n.
            rw (same, tables)
              (find-select_other (titled other) (titled (sanitize_repo env name))
                (λ x. titled_apart (sanitize_repo env name) other x n) w.db.repos);
      }

  -- the transaction's body, by the row and the directory
  abbrev body : Text → Sys C (Unit {0})
  body name = do
    row ← attempt (on_db (get_repo_by_name env (sanitize_repo env name)))
    there ← reads_disk (exists (path_of env m (sanitize_repo env name)))
    delete_body env lru m (sanitize_repo env name) row there

  emptied_body :
      (name : Text) (w after : World C)
      → IsSteady env name
      → body name w ≡ (ok tt, after)
      → IsDeleted (sanitize_repo env name) w after
  unfolding get_repo_by_name get_one one ◌>>=◌ attempt on_db reads_disk
  emptied_body name w after steady run =
      elim (Option-cases (find (titled (sanitize_repo env name)) w.db.repos)) [
        | inr (r, found) ↦ emptied_row name r _ w after steady (rw (steady, found) at run)
        | inl missing ↦ elim (Bool-cases (exists (path_of env m (sanitize_repo env name)) w.disk)) [
          | inl there ↦
              let (same, files) =
                removed_files (sanitize_repo env name) w after
                  (unfold delete_body in rw (steady, missing, there) at run) in
              record {
                no_row = rw same (find-none (titled (sanitize_repo env name)) w.db.repos missing);
                no_files = files;
                others = λ other n. rw same refl;
              }
          | inr gone ↦
              absurd (unfold delete_body raise in ground (arith, rw (steady, missing, gone) at run))
        ]
      ]

  emptied_transaction :
      (name : Text) (w after : World C)
      → IsSteady env name
      → delete_transaction env lru m (sanitize_repo env name) w ≡ (ok tt, after)
      → IsDeleted (sanitize_repo env name) w after
        × (hit lru (sanitize_repo env name) after.cache ≡ none)
  unfolding delete_transaction
  emptied_transaction name w after steady run =
      let (middle, inside, end) = deferred_ok _ _ tt w after (transaction_ok _ _ tt w after run) in
      let gone = emptied_body name w middle steady inside in
      (
        rw end (record { no_row = gone.no_row; no_files = gone.no_files; others = gone.others }),
        rw end (laws.hit-remove (sanitize_repo env name) middle.cache),
      )

  -- After DeleteRepository has returned nil, no row has the repository's name, nothing exists at or below
  -- its directory, the cache does not hold it, and the rows of all other names are as they were; for a
  -- name that sanitizing twice leaves as sanitizing once does.
  pub delete_repository-IsDeleted :
      (name : Text) (w after : World C)
      → IsSteady env name
      → delete_repository env lru m name w ≡ (ok tt, after)
      → IsDeleted (sanitize_repo env name) w after
        × (hit lru (sanitize_repo env name) after.cache ≡ none)
  unfolding delete_repository
  delete_repository-IsDeleted name w after steady run =
      let (r, w1, looked, run1) =
        sys_bind_ok (repository env lru m (sanitize_repo env name)) _ tt w after run in
      let (_, w2, built, run2) =
        sys_bind_ok (succeed (m.new_event on_delete r)) _ tt w1 after run1 in
      let (_, w3, deleted, run3) =
        sys_bind_ok (delete_transaction env lru m (sanitize_repo env name)) _ tt w2 after run2 in
      let tables : w2.db ≡ w.db =
        rw (succeed_same (m.new_event on_delete r) w1 w2 built)
          (looked_db env lru m (sanitize_repo env name) (ok r) w w1 looked) in
      let (gone, missed) = emptied_transaction name w2 w3 steady deleted in
      rw (succeed_same (m.send_event on_delete r) w3 after run3) (
        record {
          no_row = gone.no_row;
          no_files = gone.no_files;
          others = λ other n. rw tables at (gone.others other n);
        },
        missed,
      )

  -- If the directory of another repository lies in the directory of the one that DeleteRepository has
  -- deleted, as that of "a.git/b" lies in that of "a", then the other repository has lost its files and
  -- keeps its row; for a name that sanitizing twice leaves as sanitizing once does.
  pub delete_repository-nested :
      (name other : Text) (s : Repo) (w after : World C)
      → IsSteady env name
      → text_eq (sanitize_repo env name) other ≡ false
      → is_under (path_of env m (sanitize_repo env name)) (path_of env m other) ≡ true
      → find (titled other) w.db.repos ≡ some s
      → delete_repository env lru m name w ≡ (ok tt, after)
      → (exists (path_of env m other) after.disk ≡ false)
        × (find (titled other) after.db.repos ≡ some s)
  delete_repository-nested name other s w after steady differ inside row run =
      let (gone, _) = delete_repository-IsDeleted name w after steady run in
      (gone.no_files (path_of env m other) inside, rw (gone.others other differ) row)

  -- A directory that has no row, and that the cache does not hold, stays: DeleteRepository returns
  -- ErrRepoNotFound and changes neither the tables nor the files.
  pub delete_repository-no_row :
      (name : Text) (w : World C)
      → IsSteady env name
      → hit lru (sanitize_repo env name) w.cache ≡ none
      → find (titled (sanitize_repo env name)) w.db.repos ≡ none
      → (c : C) × (delete_repository env lru m name w
          ≡ (err repo_not_found, record w { cache = c }))
  unfolding delete_repository repository load get_repo_by_name get_one one Exec.on_error
      Exec.transaction ◌>>=◌ on_db on_cache reads_disk on_error transaction raise
  delete_repository-no_row name w steady missed missing =
      elim (Bool-cases (exists (path_of env m (sanitize_repo env name)) w.disk)) [
        | inl there ↦ (
          (lru.get (sanitize_repo env name) w.cache).1,
          rw (steady, missed, there, steady, missing) refl,
        )
        | inr gone ↦ ((lru.get (sanitize_repo env name) w.cache).1, rw (steady, missed, gone) refl)
      ]
