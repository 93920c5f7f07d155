-- ===== src/Backend/Lifecycle/Kept.antt =====
-- The operations of pkg/backend/repo.go that create, delete and rename repositories, and the coherence of
-- the cache.
pub mod Setters
use soft_serve.Base.{
  ℕ, zero, suc, ◌≡◌, refl, ap, Bool, true, false, not, List, Option, Text, text_eq, text_eq_refl,
  Bool-cases, inl, inr, if◌then◌else◌,
}
use soft_serve.Env.{Env}
use soft_serve.Names.{NameError, sanitize_repo}
use soft_serve.Store.Schema.{Repo, LfsObject, Db}
use soft_serve.Store.Exec.{Result, ok, err, valid}
use soft_serve.Store.Exec.Preserves.{
  Preserves, Preserves-valid, Preserves-on_error, Preserves-raise, preserves_rules,
}
use soft_serve.Store.Repos.{
  update_repo, create_repo, delete_repo_by_name, get_repo_by_name, set_repo_name_by_name,
  set_repo_description_by_name, set_repo_is_hidden_by_name, set_repo_is_private_by_name,
  set_repo_project_name_by_name,
}
use soft_serve.Store.Lfs.{get_lfs_objects_by_name}
use soft_serve.System.{◌>>=◌, ◌>>◌, on_db, on_cache}
use soft_serve.System.Cache.{Lru, LruLaws}
use soft_serve.System.Keeps.{
  Keeps, Quiet, Keeps-Quiet, Quiet-pure, Quiet-raise, Quiet-on_db, Quiet-on_disk, Quiet-reads_disk,
  Quiet-bind, Quiet-for_each, Quiet-transaction, Quiet-on_error, Quiet-if, Keeps-bind,
  Keeps-on_error, quiet_rules,
}
use soft_serve.GitHooks.{generate_hook, generate_hooks}
use soft_serve.Backend.Lifecycle.{
  drop_cached, Machine, Options, Action, on_rename, on_visibility_change, create_files, create_body,
  create_repository, delete_objects, delete_body, delete_transaction, delete_repository,
  rename_transaction, rename_valid, rename_repository, set_hidden, set_description, set_marker,
  set_private_column, set_private, set_project_name, announce, succeed,
}
use soft_serve.Backend.Lifecycle.Coherent.{
  IsSteady, Agrees, IsCoherent, IsCoherentBut, insert_repo-Agrees, update_repo-Agrees,
  delete_repos-Agrees, update_repo_name-Agrees,
}
use soft_serve.Backend.Lifecycle.Cached.{Keeps-dropped, Keeps-deferred, repository-IsCoherent}

module _ {C : Type 0} (env : Env) (lru : Lru C) (laws : LruLaws lru) (m : Machine) where
  pub succeed-Quiet : (P : C → Db → Type 0) (b : Bool) → Quiet P (succeed {C = C} b)
  succeed-Quiet P true = Quiet-pure tt
  succeed-Quiet P false = Quiet-raise _

  send-Quiet :
      (P : C → Db → Type 0) (a : Action) (r : Repo)
      → Quiet P (succeed {C = C} (m.new_event a r) >> succeed (m.send_event a r))
  send-Quiet P a r = Quiet-bind _ _ (succeed-Quiet P (m.new_event a r)) λ _. succeed-Quiet P _

  pub announce-Quiet :
      (P : C → Db → Type 0) (r : Repo) (private : Bool) → Quiet P (announce env lru m r private)
  unfolding announce
  announce-Quiet P r private =
      Quiet-if (if r.private then private else not private) _ _
        (send-Quiet P on_visibility_change r) (Quiet-pure tt)

  pub valid-Quiet :
      (P : C → Db → Type 0) (verdict : Option NameError) → Quiet P (on_db {C = C} (valid verdict))
  valid-Quiet P verdict = Quiet-on_db _ λ c. Preserves-valid verdict

  generate_hook-Quiet :
      (P : C → Db → Type 0) (hooks_path : List Text) (hook : Text)
      → Quiet P (generate_hook {C = C} env m.faults m.data_path hooks_path hook)
  unfolding generate_hook
  generate_hook-Quiet P hooks_path hook = search quiet_rules

  pub generate_hooks-Quiet :
      (P : C → Db → Type 0) (name : Text)
      → Quiet P (generate_hooks {C = C} env m.faults m.data_path name)
  unfolding generate_hooks
  generate_hooks-Quiet P name =
      Quiet-bind _ _ (Quiet-on_disk _) λ _. Quiet-for_each _ _ (generate_hook-Quiet P _)

  pub delete_objects-Quiet :
      (P : C → Db → Type 0) (repo_id : ℕ) (objs : List LfsObject)
      → Quiet P (delete_objects env lru m repo_id objs)
  unfolding delete_objects
  delete_objects-Quiet P repo_id objs = search quiet_rules

  pub set_marker-Quiet :
      (P : C → Db → Type 0) (file : List Text) (private : Bool)
      → Quiet P (set_marker env lru m file private)
  unfolding set_marker
  set_marker-Quiet P file true = search quiet_rules
  set_marker-Quiet P file false = search quiet_rules

  create_repo-Agrees :
      (excused : Text → Bool) (name : Text) (user_id : ℕ) (opts : Options)
      → IsSteady env name
      → (c : C)
      → Preserves (Agrees env lru excused c) (
          create_repo env
            (sanitize_repo env name)
            user_id
            opts.project_name
            opts.description
            opts.private
            opts.hidden
            opts.mirror)
  unfolding create_repo
  create_repo-Agrees excused name zero opts steady c = Preserves-raise _
  create_repo-Agrees excused name (suc user_id) opts steady c = Preserves-on_error _ _ (
      insert_repo-Agrees env lru c excused _ _ _ _ _ _ _
        (ap (λ t. sanitize_repo env (sanitize_repo env t)) steady))

  pub create_files-Quiet :
      (P : C → Db → Type 0) (name : Text) (opts : Options)
      → Quiet P (create_files env lru m name opts)
  unfolding create_files
  create_files-Quiet P name opts = search (quiet_rules, generate_hooks-Quiet)

  pub create_body-Quiet :
      (name : Text) (user_id : ℕ) (opts : Options)
      → IsSteady env name
      → Quiet (IsCoherent env lru) (create_body env lru m (sanitize_repo env name) user_id opts)
  unfolding create_body
  create_body-Quiet name user_id opts steady =
      Quiet-bind _ _ (Quiet-on_db _ (create_repo-Agrees _ name user_id opts steady))
        λ _. create_files-Quiet _ _ opts

  -- CreateRepository
  pub create_repository-IsCoherent :
      (name : Text) (user_id : ℕ) (opts : Options)
      → IsSteady env name
      → Keeps (IsCoherent env lru) (create_repository env lru m name user_id opts)
  unfolding create_repository
  create_repository-IsCoherent name user_id opts steady =
      Keeps-bind _ _ (Keeps-Quiet _ (valid-Quiet _ _)) λ _.
        Keeps-bind _ _
          (Keeps-on_error _ _
            (Keeps-Quiet _ (Quiet-transaction _ (create_body-Quiet name user_id opts steady))))
          λ _.
            repository-IsCoherent env lru laws m (sanitize_repo env name)
              (ap (sanitize_repo env) steady)

  pub delete_body-Quiet :
      (name : Text) (row : Result Repo) (there : Bool)
      → IsSteady env name
      → Quiet
          (IsCoherentBut env lru (sanitize_repo env name))
          (delete_body env lru m (sanitize_repo env name) row there)
  unfolding delete_body
  delete_body-Quiet name (err e) true steady = Quiet-on_disk _
  delete_body-Quiet name (err e) false steady = Quiet-raise _
  delete_body-Quiet name (ok r) there steady =
      Quiet-bind _ _ (unfold get_lfs_objects_by_name in search (quiet_rules, preserves_rules))
        λ objs. Quiet-bind _ _ (delete_objects-Quiet _ r.id objs) λ _.
          Quiet-bind _ _
            (Quiet-on_error _ _ (
              Quiet-on_db _ λ c.
                unfold delete_repo_by_name in
                rw steady
                  (delete_repos-Agrees env lru c _ (sanitize_repo env name) (text_eq_refl _))))
            λ _. Quiet-on_disk _

  delete_transaction-IsCoherent :
      (name : Text)
      → IsSteady env name
      → Keeps (IsCoherent env lru) (delete_transaction env lru m (sanitize_repo env name))
  unfolding delete_transaction get_repo_by_name
  delete_transaction-IsCoherent name steady = Keeps-on_error _ _ (
      Keeps-deferred env lru laws (sanitize_repo env name) _ (
        Quiet-bind _ _ (search (quiet_rules, preserves_rules)) λ row.
          Quiet-bind _ _ (search quiet_rules) λ there. delete_body-Quiet name row there steady))

  -- DeleteRepository
  pub delete_repository-IsCoherent :
      (name : Text)
      → IsSteady env name
      → Keeps (IsCoherent env lru) (delete_repository env lru m name)
  unfolding delete_repository
  delete_repository-IsCoherent name steady =
      Keeps-bind _ _
        (repository-IsCoherent env lru laws m (sanitize_repo env name)
          (ap (sanitize_repo env) steady))
        λ r. Keeps-bind _ _ (Keeps-Quiet _ (succeed-Quiet _ _)) λ _.
          Keeps-bind _ _ (delete_transaction-IsCoherent name steady)
            λ _. Keeps-Quiet _ (succeed-Quiet _ _)

  rename_transaction-IsCoherent :
      (old new : Text)
      → text_eq (sanitize_repo env old) (sanitize_repo env new) ≡ false
      → IsSteady env old
      → IsSteady env new
      → Keeps
          (IsCoherent env lru)
          (rename_transaction env lru m (sanitize_repo env old) (sanitize_repo env new))
  unfolding rename_transaction set_repo_name_by_name
  rename_transaction-IsCoherent old new differ steady steady' = Keeps-on_error _ _ (
      Keeps-deferred env lru laws (sanitize_repo env old) _ (
        Quiet-bind _ _
          (Quiet-on_db _ λ c. Preserves-on_error _ _ (
            rw (steady, steady')
              (update_repo_name-Agrees env lru c _ (sanitize_repo env old) (sanitize_repo env new)
                (text_eq_refl _) differ (ap (sanitize_repo env) steady'))))
          λ _. Quiet-bind _ _ (Quiet-on_disk _) λ _. Quiet-on_disk _))

  -- RenameRepository
  pub rename_repository-IsCoherent :
      (old new : Text)
      → IsSteady env old
      → IsSteady env new
      → Keeps (IsCoherent env lru) (rename_repository env lru m old new)
  unfolding rename_repository rename_valid
  rename_repository-IsCoherent old new steady steady' =
      Keeps-bind _ _ (Keeps-Quiet _ (valid-Quiet _ _)) λ _.
        Keeps-bind _ _ (Keeps-Quiet _ (valid-Quiet _ _)) λ _.
          elim (Bool-cases (text_eq (sanitize_repo env old) (sanitize_repo env new))) [
            | inl same ↦ rw same (Keeps-Quiet _ (Quiet-pure tt))
            | inr differ ↦ rw differ (
                Keeps-bind _ _ (Keeps-Quiet _ (Quiet-reads_disk _)) λ there.
                  Keeps-bind _ _
                    (Keeps-Quiet _ (Quiet-if there _ _ (Quiet-pure tt) (Quiet-raise _)))
                    λ _. Keeps-bind _ _ (Keeps-Quiet _ (Quiet-reads_disk _)) λ taken.
                      Keeps-bind _ _
                        (Keeps-Quiet _ (Quiet-if taken _ _ (Quiet-raise _) (Quiet-pure tt)))
                        λ _.
                          Keeps-bind _ _
                            (rename_transaction-IsCoherent old new differ steady steady')
                            λ _.
                              Keeps-bind _ _
                                (repository-IsCoherent env lru laws m (sanitize_repo env new)
                                  (ap (sanitize_repo env) steady'))
                                λ r. Keeps-Quiet _ (send-Quiet _ on_rename r))
          ]
