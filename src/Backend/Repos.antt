-- ===== src/Backend/Repos.antt =====
-- pkg/backend/repo.go: the lookup of a repository, for operations that change neither files nor the
-- cache, and the reads of its columns. Lifecycle has the operations that do.
use soft_serve.Base.{Bool, Option, none, some, List, Text, if◌then◌else◌}
use soft_serve.Env.{Env}
use soft_serve.Names.{sanitize_repo, repo_path}
use soft_serve.Store.Schema.{Repo}
use soft_serve.Store.Repos.{
  get_repo_by_name, get_repo_description_by_name, get_repo_is_hidden_by_name,
  get_repo_is_mirror_by_name, get_repo_is_private_by_name, get_repo_project_name_by_name,
}
use soft_serve.Store.Exec.{
  Error, record_not_found, repo_not_found, Exec, pure, raise, on_error, wrap_error, transaction,
}

-- What the operations find outside the database when they start: the repository cache, the paths
-- that exist, and the data directory.
pub record Host : Type 0 where
  pub cached : Text → Option Repo
  pub exists : List Text → Bool
  pub data_path : List Text

abbrev pub repo_error : Error → Error
repo_error e = elim (wrap_error e) [ record_not_found ↦ repo_not_found | other ↦ other ]

module _ (env : Env) where
  -- Backend.Repository on a name that the cache does not hold; the result goes into the cache
  unfoldable pub load_repository : Host → Text → Exec Repo
  load_repository host name =
      if host.exists (repo_path env host.data_path name)
      then on_error repo_error (transaction (on_error wrap_error (get_repo_by_name env name)))
      else raise repo_not_found

  abbrev cached_or : Option Repo → Exec Repo → Exec Repo
  cached_or none load = load
  cached_or (some r) load = pure r

  -- Backend.Repository
  unfoldable pub repository : Host → Text → Exec Repo
  unfolding load_repository
  repository host name =
      cached_or (host.cached (sanitize_repo env name))
        (load_repository host (sanitize_repo env name))

  -- Backend.Description
  unfoldable pub description : Text → Exec Text
  description name =
      on_error wrap_error (transaction (get_repo_description_by_name env (sanitize_repo env name)))

  -- Backend.IsMirror
  unfoldable pub is_mirror : Text → Exec Bool
  is_mirror name =
      on_error wrap_error (transaction (get_repo_is_mirror_by_name env (sanitize_repo env name)))

  -- Backend.IsPrivate
  unfoldable pub is_private : Text → Exec Bool
  is_private name =
      on_error wrap_error (transaction (get_repo_is_private_by_name env (sanitize_repo env name)))

  -- Backend.IsHidden
  unfoldable pub is_hidden : Text → Exec Bool
  is_hidden name =
      on_error wrap_error (transaction (get_repo_is_hidden_by_name env (sanitize_repo env name)))

  -- Backend.ProjectName
  unfoldable pub project_name : Text → Exec Text
  project_name name =
      on_error wrap_error (transaction (get_repo_project_name_by_name env (sanitize_repo env name)))
