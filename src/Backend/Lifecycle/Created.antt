-- ===== src/Backend/Lifecycle/Created.antt =====
-- CreateRepository and RenameRepository of pkg/backend/repo.go: the rows that they leave.
use soft_serve.Base.{
  ℕ, zero, suc, ◌≡◌, refl, sym, ap, ◌∙◌, true, not, ◌||◌, none, some, Option, Text, text_eq_refl,
  find, any, contains, arith, Bool-cases, Option-cases, inl, inr,
}
use soft_serve.Env.{Env}
use soft_serve.Names.{sanitize_repo, validate_repo}
use soft_serve.Store.Schema.{Repo, Db, user_ids}
use soft_serve.Store.Exec
use soft_serve.Store.Exec.{Error, Result, ok, err, exec, checked, valid, get_one, one, repo_exist}
use soft_serve.Store.Found.{some_injective, find-append_none}
use soft_serve.Store.Repos.{titled, get_repo_by_name, create_repo, insert_repo}
use soft_serve.System.{
  World, ◌>>=◌, on_cache, on_db, reads_disk, on_error, transaction, raise, pure,
}
use soft_serve.System.Disk.{exists}
use soft_serve.System.Cache.{Lru, LruLaws, hit}
use soft_serve.System.Keeps.{unchanged_after, Keeps-Quiet}
use soft_serve.System.Bind.{sys_bind_ok, transaction_ok}
use soft_serve.Backend.Lifecycle.{
  Machine, Options, path_of, load, repository, create_error, create_files, create_body,
  create_repository,
}
use soft_serve.Backend.Lifecycle.Coherent.{IsSteady, IsCoherent}
use soft_serve.Backend.Lifecycle.Kept.{create_files-Quiet, create_body-Quiet, valid-Quiet}

abbrev ok_of : {A : Type 0} → Result A → Option A
ok_of (ok a) = some a
ok_of (err e) = none

-- the row that CreateRepo inserts
abbrev pub new_row : Text → ℕ → Options → Db → Repo
new_row name user_id opts db = record {
  id = db.next_repo;
  name = name;
  project_name = opts.project_name;
  description = opts.description;
  private = opts.private;
  mirror = opts.mirror;
  hidden = opts.hidden;
  user_id = user_id;
}

module _ (env : Env) where
  inserted :
      (name : Text) (user_id : ℕ) (opts : Options) (db after : Db)
      → IsSteady env name
      → create_repo env
          (sanitize_repo env name)
          user_id
          opts.project_name
          opts.description
          opts.private
          opts.hidden
          opts.mirror
          db
        ≡ (ok tt, after)
      → find (titled (sanitize_repo env name)) after.repos
        ≡ some (new_row (sanitize_repo env name) user_id opts db)
  unfolding create_repo insert_repo checked Exec.on_error Exec.raise
  inserted name zero opts db after steady run = absurd (ground (arith, run))
  inserted name (suc user_id) opts db after steady run =
      elim (Bool-cases (
        any (titled (sanitize_repo env name)) db.repos
        || not (contains (user_ids db) (suc user_id)))) [
          | inl stop ↦ absurd (ground (arith, rw (steady, stop) at run))
          | inr go ↦
              let end = sym (ap (λ p. p.1.repos) (rw (steady, go) at run)) in
              rw end (
                find-append_none (titled (sanitize_repo env name)) db.repos
                  (new_row (sanitize_repo env name) (suc user_id) opts db) (ground (arith, go))
                  (text_eq_refl (sanitize_repo env name)))
        ]

module _ {C : Type 0} (env : Env) (lru : Lru C) (laws : LruLaws lru) (m : Machine) where
  -- a lookup that succeeds, from a coherent cache, has found the row
  pub repository-row :
      (name : Text) (r : Repo) (w after : World C)
      → IsSteady env name
      → IsCoherent env lru w.cache w.db
      → repository env lru m name w ≡ (ok r, after)
      → (find (titled (sanitize_repo env name)) w.db.repos ≡ some r) × (after.db ≡ w.db)
  unfolding repository load get_repo_by_name get_one one Exec.on_error Exec.transaction ◌>>=◌ on_db
      on_cache reads_disk on_error transaction raise pure
  repository-row name r w after steady h run =
      elim (Option-cases (hit lru (sanitize_repo env name) w.cache)) [
        | inr (s, found) ↦
            let end = rw found at run in
            (
              h.hits (sanitize_repo env name) s refl found ∙ ap ok_of (ap (λ p. p.0) end),
              ap (λ v. v.db) (sym (ap (λ p. p.1) end)),
            )
        | inl missed ↦ elim (Bool-cases (exists (path_of env m (sanitize_repo env name)) w.disk)) [
          | inr gone ↦ absurd (ground (arith, rw (missed, gone) at run))
          | inl there ↦ elim (Option-cases (find (titled (sanitize_repo env name)) w.db.repos)) [
            | inl missing ↦ absurd (ground (arith, rw (missed, there, steady, missing) at run))
            | inr (s, found) ↦
                let end = rw (missed, there, steady, found) at run in
                (found ∙ ap ok_of (ap (λ p. p.0) end), ap (λ v. v.db) (sym (ap (λ p. p.1) end)))
          ]
        ]
      ]

  -- CreateRepository with the name of a repository that exists, for a user, returns ErrRepoExist, and
  -- changes neither the tables, nor the files, nor the cache.
  pub create_repository-taken :
      (name : Text) (user_id : ℕ) (opts : Options) (w : World C)
      → IsSteady env name
      → validate_repo env (sanitize_repo env name) ≡ none
      → any (titled (sanitize_repo env name)) w.db.repos ≡ true
      → create_repository env lru m name (suc user_id) opts w ≡ (err repo_exist, w)
  unfolding create_repository create_body create_repo insert_repo checked valid ◌>>=◌ on_db on_error
      Exec.on_error transaction
  create_repository-taken name user_id opts w steady good taken = rw (good, steady, taken) refl

  created_body :
      (name : Text) (user_id : ℕ) (opts : Options) (w after : World C)
      → IsSteady env name
      → create_body env lru m (sanitize_repo env name) user_id opts w ≡ (ok tt, after)
      → find (titled (sanitize_repo env name)) after.db.repos
        ≡ some (new_row (sanitize_repo env name) user_id opts w.db)
  unfolding create_body on_db
  created_body name user_id opts w after steady run =
      let (_, w1, inserting, run1) =
        sys_bind_ok
          (on_db (
            create_repo env (sanitize_repo env name) user_id opts.project_name opts.description
              opts.private opts.hidden opts.mirror))
          _ tt w after run in
      let (tables, _) =
        unchanged_after (create_files env lru m (sanitize_repo env name) opts)
          (λ P. create_files-Quiet env lru laws m P (sanitize_repo env name) opts) _ w1 after
          run1 in
      let row =
        inserted env name user_id opts w.db w1.db steady (ap (λ p. (p.0, p.1.db)) inserting) in
      rw tables row

  -- When CreateRepository returns a repository, that is the row of the name, with a fresh id, the user
  -- as its owner and the options as they were given, if the cache was coherent and sanitizing the name
  -- twice is sanitizing it once.
  pub create_repository-row :
      (name : Text) (user_id : ℕ) (opts : Options) (r : Repo) (w after : World C)
      → IsSteady env name
      → IsCoherent env lru w.cache w.db
      → create_repository env lru m name user_id opts w ≡ (ok r, after)
      → (r ≡ new_row (sanitize_repo env name) user_id opts w.db)
        × (find (titled (sanitize_repo env name)) after.db.repos ≡ some r)
  unfolding create_repository
  create_repository-row name user_id opts r w after steady h run =
      let (_, w1, checked', run1) =
        sys_bind_ok (on_db (valid (validate_repo env (sanitize_repo env name)))) _ r w after run in
      let (_, w2, created, run2) =
        sys_bind_ok
          (on_error create_error
            (transaction (create_body env lru m (sanitize_repo env name) user_id opts)))
          _ r w1 after run1 in
      let (tables, cache) =
        unchanged_after (on_db (valid (validate_repo env (sanitize_repo env name))))
          (λ P. valid-Quiet env lru laws m P (validate_repo env (sanitize_repo env name))) _ w w1
          checked' in
      let body =
        transaction_ok _ (create_body env lru m (sanitize_repo env name) user_id opts) tt w1 w2
          created in
      let row = created_body name user_id opts w1 w2 steady body in
      let coherent : IsCoherent env lru w2.cache w2.db = rw body at (
        (Keeps-Quiet _ (create_body-Quiet env lru laws m name user_id opts steady)).at w1
          (rw (tables, cache) h)) in
      let (found, same) =
        repository-row (sanitize_repo env name) r w2 after (ap (sanitize_repo env) steady) coherent
          run2 in
      let found' = rw steady at found in
      (rw (← tables) (some_injective (sym found' ∙ row)), rw same found')
