-- ===== src/Backend/Lifecycle.antt =====
-- pkg/backend/repo.go with the files and the cache: the lookup, listing, creation, deletion and
-- renaming of repositories, and the changes of their columns. ImportRepository is left out.
pub mod Coherent
pub mod Cached
pub mod Kept
pub mod Served
pub mod Laws
pub mod Deleted
pub mod Created
pub mod Renamed
pub mod Columns
use soft_serve.Base.{
  ℕ, Bool, true, false, not, Option, none, some, List, [], ◌∷◌, ◌++◌, Text, str, text_eq,
  if◌then◌else◌,
}
use soft_serve.Env.{Env}
use soft_serve.Names.{sanitize, sanitize_repo, repo_path, validate_repo}
use soft_serve.Store.Schema.{Repo, LfsObject}
use soft_serve.Store.Repos
use soft_serve.Store.Repos.{
  create_repo, delete_repo_by_name, get_all_repos, get_repo_by_name, get_user_repos,
  set_repo_description_by_name, set_repo_is_hidden_by_name, set_repo_is_private_by_name,
  set_repo_name_by_name, set_repo_project_name_by_name,
}
use soft_serve.Store.Users.{find_user_by_username}
use soft_serve.Store.Lfs.{get_lfs_objects_by_name}
use soft_serve.Store.Exec.{
  Error, record_not_found, duplicate_key, repo_not_found, repo_exist, webhook_error, Result, ok,
  err, valid, wrap_error,
}
use soft_serve.Web.Decimal.{decimal}
use soft_serve.System.{
  Sys, ◌>>=◌, ◌>>◌, pure, raise, on_db, on_disk, reads_disk, on_cache, on_error, attempt,
  transaction, deferred, for_each,
}
use soft_serve.Storage.{StatFaults}
use soft_serve.System.Disk.{
  FilePath, Files, Faults, Io, parent, exists, os_mkdir_all, os_write_file, os_remove,
  os_remove_all, os_rename,
}
use soft_serve.System.Cache.{Lru}
use soft_serve.Storage.{object_name, delete}
use soft_serve.GitHooks.{generate_hooks}
use soft_serve.Backend.Repos.{repo_error}

-- proto.RepositoryOptions
pub record Options : Type 0 where
  pub private : Bool
  pub description : Text
  pub project_name : Text
  pub mirror : Bool
  pub hidden : Bool

pub data Action : Type 0 where
  on_delete on_rename on_visibility_change : Action

-- What the operations find in the machine: the data directory, the calls that fail, `git init`, and
-- whether building and sending the webhook event of a repository succeed.
pub record Machine : Type 0 where
  pub data_path : FilePath
  pub faults : Faults
  pub stat_fails : StatFaults
  pub git_init : FilePath → Io
  pub new_event : Action → Repo → Bool
  pub send_event : Action → Repo → Bool

abbrev pub create_error : Error → Error
create_error e = elim (wrap_error e) [ duplicate_key ↦ repo_exist | other ↦ other ]

module _ {C : Type 0} where
  abbrev succeed : Bool → Sys C (Unit {0})
  succeed true = pure tt
  succeed false = raise webhook_error

module _ (env : Env) (m : Machine) where
  -- Backend.repoPath
  abbrev pub path_of : Text → FilePath
  path_of name = repo_path env m.data_path name

  -- the marker file of a public repository
  abbrev pub marker : Text → FilePath
  marker name = path_of name ++ str "git-daemon-export-ok" ∷ []

module _ {C : Type 0} (lru : Lru C) where
  abbrev pub add_to_cache : Text → Repo → Sys C (Unit {0})
  add_to_cache name r = on_cache (λ c. (tt, lru.add name r c))

  -- d.cache.Delete
  unfoldable pub drop_cached : Text → Sys C (Unit {0})
  unfolding on_cache
  drop_cached name = on_cache (λ c. (tt, lru.remove name c))

module _ {C : Type 0} (env : Env) (lru : Lru C) (m : Machine) where
  -- the lookup of Repository, on a name that the cache does not hold
  unfoldable pub load : Text → Sys C Repo
  load name = do
    there ← reads_disk (exists (path_of env m name))
    if there then pure tt else raise repo_not_found
    r ← on_error repo_error (transaction (on_error wrap_error (on_db (get_repo_by_name env name))))
    add_to_cache lru name r
    pure r

  abbrev pub cached_or : Text → Option Repo → Sys C Repo
  cached_or name none = load name
  cached_or name (some r) = pure r

  -- Backend.Repository
  unfoldable pub repository : Text → Sys C Repo
  unfolding load ◌>>=◌ on_cache
  repository name =
      on_cache (lru.get (sanitize_repo env name)) >>= cached_or (sanitize_repo env name)

  -- Backend.Repositories
  unfoldable pub repositories : Sys C (List Repo)
  repositories = on_error wrap_error (
      transaction
        (do ms ← on_db (get_all_repos env); for_each ms (λ r. add_to_cache lru r.name r); pure ms))

  -- the files of a new repository
  unfoldable pub create_files : Text → Options → Sys C (Unit {0})
  create_files name opts = do
    on_disk (m.git_init (path_of env m name))
    on_disk (os_write_file m.faults (path_of env m name ++ str "description" ∷ []) opts.description)
    if opts.private then pure tt else on_disk (os_write_file m.faults (marker env m name) [])
    generate_hooks env m.faults m.data_path name

  -- the transaction of CreateRepository, for the sanitized name
  unfoldable pub create_body : Text → ℕ → Options → Sys C (Unit {0})
  unfolding create_files
  create_body name user_id opts = do
    on_db (
        create_repo env name user_id opts.project_name opts.description opts.private opts.hidden
          opts.mirror)
    create_files name opts

  -- Backend.CreateRepository; user_id is 0 without a user
  unfoldable pub create_repository : Text → ℕ → Options → Sys C Repo
  unfolding create_body repository
  create_repository name user_id opts = do
    on_db (valid (validate_repo env (sanitize_repo env name)))
    on_error create_error (transaction (create_body (sanitize_repo env name) user_id opts))
    repository (sanitize_repo env name)

  -- the loop over the objects of a repository: an error is logged only
  unfoldable pub delete_objects : ℕ → List LfsObject → Sys C (Unit {0})
  delete_objects repo_id objs = for_each objs λ o. do
    r ← attempt (
        on_disk
          (delete m.faults (m.data_path ++ str "lfs" ∷ decimal repo_id ∷ []) (object_name o.oid)))
    pure tt

  -- the transaction of DeleteRepository, by the row that is found and whether the directory exists
  unfoldable pub delete_body : Text → Result Repo → Bool → Sys C (Unit {0})
  unfolding delete_objects
  delete_body name (err e) false = raise repo_not_found
  delete_body name (err e) true = on_disk (os_remove_all m.faults (path_of env m name))
  delete_body name (ok r) there = do
    objs ← on_error wrap_error (on_db (get_lfs_objects_by_name name))
    delete_objects r.id objs
    on_error wrap_error (on_db (delete_repo_by_name env name))
    on_disk (os_remove_all m.faults (path_of env m name))

  -- the transaction of DeleteRepository
  unfoldable pub delete_transaction : Text → Sys C (Unit {0})
  unfolding delete_body
  delete_transaction name = on_error repo_error (
      transaction (
        deferred (lru.remove name) (do
          row ← attempt (on_db (get_repo_by_name env name))
          there ← reads_disk (exists (path_of env m name))
          delete_body name row there)))

  -- Backend.DeleteRepository
  unfoldable pub delete_repository : Text → Sys C (Unit {0})
  unfolding delete_transaction repository
  delete_repository name = do
    r ← repository (sanitize_repo env name)
    succeed (m.new_event on_delete r)
    delete_transaction (sanitize_repo env name)
    succeed (m.send_event on_delete r)

  -- Backend.DeleteUserRepositories: each deletion commits a transaction of its own
  unfoldable pub delete_user_repositories : Text → Sys C (Unit {0})
  unfolding delete_repository
  delete_user_repositories username = on_error wrap_error (do
    u ← on_db (find_user_by_username env username)
    repos ← on_db (get_user_repos env u.id)
    for_each repos (λ r. delete_repository r.name))

  -- the transaction of RenameRepository
  unfoldable pub rename_transaction : Text → Text → Sys C (Unit {0})
  rename_transaction old new = on_error wrap_error (
      transaction (
        deferred (lru.remove old) (do
          on_db (set_repo_name_by_name env old new)
          on_disk (os_mkdir_all m.faults (parent (path_of env m new)))
          on_disk (os_rename m.faults (path_of env m old) (path_of env m new)))))

  -- RenameRepository on two different names that are valid
  unfoldable pub rename_valid : Text → Text → Sys C (Unit {0})
  unfolding rename_transaction repository
  rename_valid old new = do
    there ← reads_disk (exists (path_of env m old))
    if there then pure tt else raise repo_not_found
    taken ← reads_disk (exists (path_of env m new))
    if taken then raise repo_exist else pure tt
    rename_transaction old new
    r ← repository new
    succeed (m.new_event on_rename r)
    succeed (m.send_event on_rename r)

  -- Backend.RenameRepository
  unfoldable pub rename_repository : Text → Text → Sys C (Unit {0})
  unfolding rename_valid
  rename_repository old new = do
    on_db (valid (validate_repo env (sanitize_repo env old)))
    on_db (valid (validate_repo env (sanitize_repo env new)))
    if text_eq (sanitize_repo env old) (sanitize_repo env new)
        then pure tt
        else rename_valid (sanitize_repo env old) (sanitize_repo env new)

  -- Backend.SetHidden
  unfoldable pub set_hidden : Text → Bool → Sys C (Unit {0})
  unfolding drop_cached
  set_hidden name hidden = do
    drop_cached lru (sanitize_repo env name)
    on_error wrap_error
        (transaction (on_db (set_repo_is_hidden_by_name env (sanitize_repo env name) hidden)))

  -- Backend.SetDescription
  unfoldable pub set_description : Text → Text → Sys C (Unit {0})
  unfolding drop_cached
  set_description name desc = do
    drop_cached lru (sanitize_repo env name)
    transaction (do
      on_disk (
          os_write_file m.faults (path_of env m (sanitize_repo env name) ++ str "description" ∷ [])
            (sanitize env desc))
      on_db (set_repo_description_by_name env (sanitize_repo env name) (sanitize env desc)))

  -- the marker is written or removed
  unfoldable pub set_marker : FilePath → Bool → Sys C (Unit {0})
  set_marker file false = on_disk (os_write_file m.faults file [])
  set_marker file true = do
    there ← reads_disk (exists file)
    if there then on_disk (os_remove m.faults file) else pure tt

  -- the transaction of SetPrivate
  unfoldable pub set_private_column : Text → Bool → Sys C (Unit {0})
  unfolding set_marker
  set_private_column name private = on_error wrap_error (
      transaction (do
        set_marker (marker env m name) private
        on_db (set_repo_is_private_by_name env name private)))

  -- the end of SetPrivate, for repo.IsPrivate() != !private
  unfoldable pub announce : Repo → Bool → Sys C (Unit {0})
  announce r private =
      if (if r.private then private else not private)
      then succeed (m.new_event on_visibility_change r)
        >> succeed (m.send_event on_visibility_change r)
      else pure tt

  -- Backend.SetPrivate
  unfoldable pub set_private : Text → Bool → Sys C (Unit {0})
  unfolding set_private_column repository announce drop_cached
  set_private name private = do
    drop_cached lru (sanitize_repo env name)
    set_private_column (sanitize_repo env name) private
    r ← repository (sanitize_repo env name)
    announce r private

  -- Backend.SetProjectName
  unfoldable pub set_project_name : Text → Text → Sys C (Unit {0})
  unfolding drop_cached
  set_project_name repo name = do
    drop_cached lru (sanitize_repo env repo)
    on_error wrap_error (
        transaction
          (on_db (set_repo_project_name_by_name env (sanitize_repo env repo) (sanitize env name))))
