-- ===== src/Web/Locks/Deletes.antt =====
-- serviceLfsLocksDelete of pkg/web/git_lfs.go: which locks it deletes.
use soft_serve.Base.{
  ℕ, ◌≡◌, refl, sym, ap, Bool, true, false, not, ◌&&◌, Option, none, some, List, [], ◌∷◌, select,
  any, find, ◌==◌, ◌⊎◌, arith, Bool-cases, Option-cases, inl, inr,
}
use soft_serve.Env.{Env}
use soft_serve.Store.Schema.{Repo, User, LfsLock, Db}
use soft_serve.Store.Users.{get_user_by_id}
use soft_serve.Store.Found.{find_passes}
use soft_serve.Store.Lfs.{get_lfs_lock_by_id, delete_lfs_lock}
use soft_serve.Store.Exec.{Result, ok, ◌>>=◌, pure, get_one, one, exec}
use soft_serve.Backend.Users.{ProtoUser}
use soft_serve.Web.Locks.{
  LockResponse, Lock, lock_of, unlocked, tried, delete_lock, delete_checked, delete_found,
  locks_delete,
}

-- The handler has deleted the lock of the id, which was in the repository: its user asked for it, or
-- an administrator who forced the deletion.
pub record IsUnlocked (id : ℕ) (force : Option Bool) (repo : Option Repo) (user : Option ProtoUser)
    (db after : Db) : Type 0 where
  pub repository : Repo
  pub actor : ProtoUser
  pub lock : LfsLock
  pub repo_is : repo ≡ some repository
  pub user_is : user ≡ some actor
  pub lock_is : find (λ l. l.id == id) db.lfs_locks ≡ some lock
  pub entitled : (lock.user_id ≡ actor.user.id) ⊎ ((force ≡ some true) × (actor.user.admin ≡ true))
  pub left : after ≡ record db {
    lfs_locks = select (λ l. not (l.repo_id == repository.id && l.id == id)) db.lfs_locks;
  }

module _ (env : Env) where
  checked_deletes :
      (repo : Repo) (id : ℕ) (force : Bool) (l : LfsLock) (shown : Lock) (owner : User)
      (user : Option ProtoUser) (db after : Db) (r : Result LockResponse)
      → owner.id ≡ l.user_id
      → find (λ k. k.id == id) db.lfs_locks ≡ some l
      → delete_checked env repo id force shown owner user db ≡ (r, after)
      → (after ≡ db) ⊎ IsUnlocked id (some force) (some repo) user db after
  unfolding delete_checked delete_lock delete_lfs_lock exec pure ◌>>=◌
  checked_deletes repo id force l shown owner none db after r own found run =
      inl (sym (ap (λ p. p.1) run))
  checked_deletes repo id true l shown owner (some u) db after r own found run =
      elim (Bool-cases u.user.admin) [
        | inl admin ↦ inr (record {
          repository = repo;
          actor = u;
          lock = l;
          repo_is = refl;
          user_is = refl;
          lock_is = found;
          entitled = inr (refl, admin);
          left = sym (ap (λ p. p.1) (rw admin at run));
        })
        | inr guest ↦ inl (sym (ap (λ p. p.1) (rw guest at run)))
      ]
  checked_deletes repo id false l shown owner (some u) db after r own found run =
      elim (Bool-cases (owner.id == u.user.id)) [
        | inl ours ↦ inr (record {
          repository = repo;
          actor = u;
          lock = l;
          repo_is = refl;
          user_is = refl;
          lock_is = found;
          entitled = inl (ground (arith, own, ours));
          left = sym (ap (λ p. p.1) (rw ours at run));
        })
        | inr theirs ↦ inl (sym (ap (λ p. p.1) (rw theirs at run)))
      ]

  found_deletes :
      (repo : Repo) (id : ℕ) (force : Bool) (user : Option ProtoUser) (l : LfsLock) (db after : Db)
      (r : Result LockResponse)
      → find (λ k. k.id == id) db.lfs_locks ≡ some l
      → delete_found env repo id force user (ok l) db ≡ (r, after)
      → (after ≡ db) ⊎ IsUnlocked id (some force) (some repo) user db after
  unfolding delete_found get_user_by_id get_one one tried pure ◌>>=◌
  found_deletes repo id force user l db after r found run =
      elim (Option-cases (find (λ u. u.id == l.user_id) db.users)) [
        | inl missing ↦ inl (sym (ap (λ p. p.1) (rw missing at run)))
        | inr (owner, there) ↦
            let passes = find_passes (λ u. u.id == l.user_id) db.users owner there in
            checked_deletes repo id force l (lock_of l owner.username) owner user db after r
              (ground (arith, passes)) found (rw there at run)
      ]

  -- Whatever DELETE request the handler gets, it leaves the database alone or it deletes the lock of
  -- the request's id in the request's repository, for the lock's owner or for an administrator who
  -- forces the deletion.
  pub locks_delete-IsUnlocked :
      (lfs : Bool) (id : ℕ) (force : Option Bool) (repo : Option Repo) (user : Option ProtoUser)
      (db after : Db) (r : Result LockResponse)
      → locks_delete env lfs (some id) force repo user db ≡ (r, after)
      → (after ≡ db) ⊎ IsUnlocked id force repo user db after
  unfolding locks_delete get_lfs_lock_by_id get_one one tried pure ◌>>=◌ delete_found
  locks_delete-IsUnlocked false id force repo user db after r run = inl (sym (ap (λ p. p.1) run))
  locks_delete-IsUnlocked true id none repo user db after r run = inl (sym (ap (λ p. p.1) run))
  locks_delete-IsUnlocked true id (some force) none user db after r run =
      inl (sym (ap (λ p. p.1) run))
  locks_delete-IsUnlocked true id (some force) (some repo) user db after r run =
      elim (Option-cases (find (λ l. l.id == id) db.lfs_locks)) [
        | inl missing ↦ inl (sym (ap (λ p. p.1) (rw missing at run)))
        | inr (l, found) ↦ found_deletes repo id force user l db after r found (rw found at run)
      ]

  select_all :
      (p : LfsLock → Bool) (ls : List LfsLock) → any p ls ≡ false → select (λ l. not (p l)) ls ≡ ls
  select_all p [] h = refl
  select_all p (l ∷ ls) h = ground (arith, select_all p ls)

  -- If the lock of the request's id belongs to the user and is in another repository, and no lock of
  -- the request's repository has that id, the handler answers that it deleted the lock, and deletes
  -- nothing.
  pub locks_delete-other_repo :
      (id : ℕ) (repo : Repo) (u : ProtoUser) (l : LfsLock) (owner : User) (db : Db)
      → find (λ k. k.id == id) db.lfs_locks ≡ some l
      → find (λ v. v.id == l.user_id) db.users ≡ some owner
      → l.user_id ≡ u.user.id
      → any (λ k. k.repo_id == repo.id && k.id == id) db.lfs_locks ≡ false
      → locks_delete env true (some id) (some false) (some repo) (some u) db
        ≡ (ok (unlocked (lock_of l owner.username)), db)
  unfolding locks_delete get_lfs_lock_by_id get_user_by_id get_one one tried pure ◌>>=◌ delete_found
      delete_checked delete_lock delete_lfs_lock exec
  locks_delete-other_repo id repo u l owner db found there own elsewhere =
      let passes = find_passes (λ v. v.id == l.user_id) db.users owner there in
      let ours : (owner.id == u.user.id) ≡ true = ground (arith, passes, own) in
      rw
        (
          found,
          there,
          ours,
          select_all (λ k. k.repo_id == repo.id && k.id == id) db.lfs_locks elsewhere,
        )
        refl
