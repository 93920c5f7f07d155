-- ===== src/Ssh/Commands/Repository.antt =====
-- pkg/ssh/cmd: the commands on a repository and its collaborators.
use soft_serve.Base.{
  Bool, Option, none, some, List, [], ◌∷◌, Text, str, text_eq, trim_suffix, if◌then◌else◌,
}
use soft_serve.Base.Int.{ltbℤ}
use soft_serve.Access.{AccessLevel, no_access}
use soft_serve.Env.{Env}
use soft_serve.Store.Exec.{invalid_argument}
use soft_serve.System.{Sys, ◌>>=◌, ◌>>◌, pure, raise, on_db}
use soft_serve.System.Cache.{Lru}
use soft_serve.Backend.Repos
use soft_serve.Backend.Collabs.{collaborators}
use soft_serve.Backend.Lifecycle
use soft_serve.Backend.Lifecycle.{Machine, Options, repositories}
use soft_serve.Backend.Hosted.{add_collaborator, remove_collaborator}
use soft_serve.Ssh.Session.{
  Server, Session, check_if_readable, check_if_collab, check_if_readable_and_collab,
}
use soft_serve.Ssh.Commands.Parse.{parse_bool, join_words, show_bool}
use soft_serve.Ssh.Commands.{
  Output, RepoCommand, create, delete, is_mirror, rename, description, project_name, hidden,
  private, collab_add, collab_remove, collab_list, level_or, silent, prints,
}

module _ {C : Type 0} (env : Env) (lru : Lru C) (m : Machine) (server : Server) where
  -- hiddenCommand after its check
  unfoldable pub run_hidden : Session → Text → List Text → Sys C Output
  run_hidden s repo [] = prints show_bool (Repos.is_hidden env repo)
  run_hidden s repo (v ∷ []) =
      check_if_collab env lru m s repo
      >> silent (Lifecycle.set_hidden env lru m repo (text_eq v (str "true")))
  run_hidden s repo (v ∷ w ∷ vs) = pure []

  -- descriptionCommand after its check
  unfoldable pub run_description : Session → Text → List Text → Sys C Output
  run_description s repo [] =
      prints (λ d. d) (Repos.description env (trim_suffix repo (str ".git")))
  run_description s repo (v ∷ vs) =
      check_if_collab env lru m s repo
      >> silent (
          Lifecycle.set_description env lru m (trim_suffix repo (str ".git")) (join_words (v ∷ vs)))

  -- projectName after its check
  unfoldable pub run_project_name : Session → Text → List Text → Sys C Output
  run_project_name s repo [] =
      prints (λ d. d) (Repos.project_name env (trim_suffix repo (str ".git")))
  run_project_name s repo (v ∷ vs) =
      check_if_collab env lru m s repo
      >> silent (
          Lifecycle.set_project_name env lru m (trim_suffix repo (str ".git"))
            (join_words (v ∷ vs)))

  abbrev pub set_parsed : Session → Text → Option Bool → Sys C Output
  set_parsed s repo none = raise invalid_argument
  set_parsed s repo (some value) =
      check_if_collab env lru m s repo
      >> silent (Lifecycle.set_private env lru m (trim_suffix repo (str ".git")) value)

  -- privateCommand after its check
  unfoldable pub run_private : Session → Text → Option Text → Sys C Output
  run_private s repo none = prints show_bool (Repos.is_private env (trim_suffix repo (str ".git")))
  run_private s repo (some v) = set_parsed s repo (parse_bool v)

  -- collabAddCommand after its check
  unfoldable pub run_collab_add : Session → Text → Text → AccessLevel → Sys C Output
  run_collab_add s repo username level =
      if ltbℤ level no_access
      then raise invalid_argument
      else silent (add_collaborator env lru m server.hooks s.user repo username level)

  -- createCommand after its check
  unfoldable pub run_create : Session → Text → Options → Sys C Output
  run_create s repo opts = do
    r ←
        Lifecycle.create_repository env lru m repo (elim (s.user) [ none ↦ 0 | some u ↦ u.user.id ])
          opts
    pure (r.name ∷ [])

  -- deleteCommand after its check
  unfoldable pub run_delete : Text → Sys C Output
  run_delete repo = silent (Lifecycle.delete_repository env lru m repo)

  -- mirrorCommand after its check
  unfoldable pub run_is_mirror : Text → Sys C Output
  run_is_mirror repo = do r ← Lifecycle.repository env lru m repo; pure (show_bool r.mirror ∷ [])

  -- renameCommand after its check
  unfoldable pub run_rename : Text → Text → Sys C Output
  run_rename repo new_name = silent (Lifecycle.rename_repository env lru m repo new_name)

  -- collabRemoveCommand after its check
  unfoldable pub run_collab_remove : Text → Text → Sys C Output
  run_collab_remove repo username =
      silent (remove_collaborator env lru m server.hooks repo username)

  -- collabListCommand after its check
  unfoldable pub run_collab_list : Text → Sys C Output
  run_collab_list repo = on_db (collaborators env repo)

  -- RepoCommand: each command with its check
  unfoldable pub run_repo : Session → RepoCommand → Sys C Output
  unfolding run_create run_delete run_is_mirror run_rename run_hidden run_description
      run_project_name run_private run_collab_add run_collab_remove run_collab_list
  run_repo s (create repo opts) = check_if_collab env lru m s repo >> run_create s repo opts
  run_repo s (delete repo) = check_if_readable_and_collab env lru m s repo >> run_delete repo
  run_repo s (is_mirror repo) = check_if_readable env lru m s repo >> run_is_mirror repo
  run_repo s (rename repo new_name) =
      check_if_readable_and_collab env lru m s repo >> run_rename repo new_name
  run_repo s (description repo values) =
      check_if_readable env lru m s repo >> run_description s repo values
  run_repo s (project_name repo values) =
      check_if_readable env lru m s repo >> run_project_name s repo values
  run_repo s (hidden repo values) = check_if_readable env lru m s repo >> run_hidden s repo values
  run_repo s (private repo value) = check_if_readable env lru m s repo >> run_private s repo value
  run_repo s (collab_add repo username level) =
      check_if_readable_and_collab env lru m s repo
      >> run_collab_add s repo username (level_or level)
  run_repo s (collab_remove repo username) =
      check_if_readable_and_collab env lru m s repo >> run_collab_remove repo username
  run_repo s (collab_list repo) =
      check_if_readable_and_collab env lru m s repo >> run_collab_list repo
