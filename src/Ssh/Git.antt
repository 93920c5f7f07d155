-- ===== src/Ssh/Git.antt =====
-- gitRunE of pkg/ssh/cmd/git.go, and EnsureWithin of pkg/git/git.go.
pub mod Within
pub mod Served
pub mod Fetch
use soft_serve.Base.{
  Bool, true, false, not, ◌||◌, Option, none, some, List, [], ◌∷◌, ◌++◌, Text, str, text_eq,
  has_prefix, if◌then◌else◌,
}
use soft_serve.Base.Int.{ltbℤ}
use soft_serve.Access.{AccessLevel, read_only_access, read_write_access}
use soft_serve.Env.{Env}
use soft_serve.Paths.{join, join_below}
use soft_serve.Names.{sanitize_repo}
use soft_serve.Store.Schema.{Repo}
use soft_serve.Store.Exec.{Exec, ◌>>=◌, pure, attempt}
use soft_serve.Backend.Users.{ProtoUser}
use soft_serve.Backend.Repos.{Host, repository}
use soft_serve.Backend.Access.{access_level_for_user}

-- the errors of pkg/git, and that of an unknown command
pub data GitError : Type 0 where
  not_authed system_malfunction invalid_repo invalid_request unsupported : GitError

-- A command is refused, or its service has run, with the error that the client gets.
pub data GitReply : Type 0 where
  refused : GitError → GitReply
  ran : Text → Option GitError → GitReply

-- how a service ends: without an error, with ErrInvalidRepo, or with another error
pub data Outcome : Type 0 where
  done invalid failed : Outcome

-- What a command needs from the backend and from git: the creation and the deletion of a repository,
-- how the service ends for a name and an operation, and whether a default branch can be ensured.
pub record GitHost : Type 0 where
  pub create : Text → Option ProtoUser → Exec Repo
  pub delete : Text → Exec (Unit {0})
  pub outcome : Text → Text → Text → Outcome
  pub default_branch : Text → Bool

-- the text of an absolute path
abbrev pub rooted : List Text → Text
rooted parts = str "/" ++ join parts

-- EnsureWithin, for an absolute directory of repositories
unfoldable pub ensure_within : List Text → Text → Bool
ensure_within repos_dir repo = has_prefix (rooted (join_below repos_dir repo)) (rooted repos_dir)

abbrev pub service_error : Outcome → Option GitError
service_error done = none
service_error invalid = some invalid_repo
service_error failed = some system_malfunction

abbrev pub lfs_error : Outcome → Option GitError
lfs_error done = none
lfs_error other = some system_malfunction

abbrev pub receive_pack : Text
receive_pack = str "git-receive-pack"

abbrev pub is_upload : Text → Bool
is_upload service =
    text_eq service (str "git-upload-pack") || text_eq service (str "git-upload-archive")

abbrev pub is_lfs : Text → Bool
is_lfs service =
    text_eq service (str "git-lfs-transfer") || text_eq service (str "git-lfs-authenticate")

-- the case of upload-pack and upload-archive
unfoldable pub run_upload : GitHost → Text → Text → Text → AccessLevel → Option Repo → GitReply
run_upload git service name operation level repo =
    if ltbℤ level read_only_access then refused not_authed else elim repo [
      | none ↦ refused invalid_repo
      | some r ↦ ran service (service_error (git.outcome service name operation))
    ]

-- the level that an operation of Git LFS needs
abbrev pub operation_level : Text → Option AccessLevel
operation_level operation =
    if text_eq operation (str "download")
    then some read_only_access
    else if text_eq operation (str "upload")
    then some read_write_access
    else none

abbrev pub run_allowed : GitHost → Text → Text → Text → Option Repo → GitReply
run_allowed git service name operation none = refused invalid_repo
run_allowed git service name operation (some r) =
    ran service (lfs_error (git.outcome service name operation))

-- the case of Git LFS
unfoldable pub run_lfs : GitHost → Text → Text → Text → AccessLevel → Option Repo → GitReply
run_lfs git service name operation level repo = elim (operation_level operation) [
  | none ↦ refused invalid_request
  | some needed ↦
      if ltbℤ level needed then refused not_authed else run_allowed git service name operation repo
]

-- what follows a push to a repository that was created for it, or was there before
abbrev pub clean_up : GitHost → Text → Option Repo → Exec (Option (Unit {0}))
clean_up git name none = attempt (git.delete name)
clean_up git name (some r) = pure none

abbrev pub run_push : GitHost → Text → Text → Option Repo → Outcome → Exec GitReply
run_push git name operation repo done =
    pure (ran receive_pack (if git.default_branch name then none else some system_malfunction))
run_push git name operation repo other = do
  _ ← clean_up git name repo
  pure (ran receive_pack (some system_malfunction))

-- the case of receive-pack: an error of the creation is the command's error
abbrev pub run_receive : GitHost → Text → Text → Option ProtoUser → Option Repo → Exec GitReply
run_receive git name operation user none = do
  _ ← git.create name user
  run_push git name operation none (git.outcome receive_pack name operation)
run_receive git name operation user (some r) =
    run_push git name operation (some r) (git.outcome receive_pack name operation)

-- the switch on the service
unfoldable pub run_service :
    GitHost → Text → Text → Text → Option ProtoUser → AccessLevel → Option Repo → Exec GitReply
unfolding run_upload run_lfs
run_service git service name operation user level repo =
    if text_eq service receive_pack
    then (if ltbℤ level read_write_access
        then pure (refused not_authed)
        else run_receive git name operation user repo)
    else if is_upload service
    then pure (run_upload git service name operation level repo)
    else if is_lfs service
    then pure (run_lfs git service name operation level repo)
    else pure (refused unsupported)

-- gitRunE: the command's name is the service, and `context` the repository of its context
unfoldable pub git_run :
    Env → Host → GitHost → Option Repo → Text → Text → Text → Option ProtoUser → Exec GitReply
unfolding run_service ensure_within
git_run env host git context service arg operation user = do
  let name = sanitize_repo env arg
  level ← access_level_for_user env host context name user
  if not (ensure_within (host.data_path ++ str "repos" ∷ []) (name ++ str ".git"))
      then pure (refused invalid_repo)
      else do
        repo ← attempt (repository env host name)
        run_service git service name operation user level repo
