-- ===== src/Web/Gate.antt =====
-- pkg/web/git.go: withParams and withAccess, which stand before every handler of git and Git LFS.
-- The creation of a repository is an argument.
pub mod Laws
pub mod Served
use soft_serve.Base.{
  ℕ, Bool, true, false, not, ◌&&◌, ◌||◌, Option, none, some, List, [], ◌∷◌, ◌++◌, Text, str,
  text_eq, has_prefix, has_suffix, trim_prefix, if◌then◌else◌,
}
use soft_serve.Base.Int.{ltbℤ}
use soft_serve.Access.{AccessLevel, read_only_access, read_write_access}
use soft_serve.Env.{Env}
use soft_serve.Names.{sanitize_repo}
use soft_serve.Store.Schema.{Repo}
use soft_serve.Store.Exec.{Exec, ◌>>=◌, pure, attempt}
use soft_serve.Backend.Users.{ProtoUser}
use soft_serve.Backend.Repos.{Host, repository}
use soft_serve.Backend.Settings.{allow_keyless}
use soft_serve.Backend.Access.{access_level_for_user}
use soft_serve.Web.Auth.{AuthError, invalid_token, invalid_password, Crypto, Header, authenticate}

pub data Method : Type 0 where
  method_get method_post method_put : Method

-- The request's variables `repo`, `file` and `service`, its form value "service", whether its query
-- has go-get=1, and its authorization.
pub record GitRequest : Type 0 where
  pub repo : Text
  pub file : Text
  pub service : Text
  pub form_service : Text
  pub method : Method
  pub go_get : Bool
  pub header : Header

-- What the client gets: the handler of the route, run with an access level and a repository, or a
-- page of status 401, 404, 403 or 500, or an error of Git LFS.
pub data Response : Type 0 where
  pass : AccessLevel → Option Repo → Response
  unauthorized not_found forbidden internal_error : Response
  lfs_write_required lfs_not_found lfs_bad_credentials lfs_unauthorized : Response

abbrev pub receive_pack : Text
receive_pack = str "git-receive-pack"

abbrev pub upload_pack : Text
upload_pack = str "git-upload-pack"

abbrev pub upload_archive : Text
upload_archive = str "git-upload-archive"

-- withParams: the request with its variables, from the path and the route's variables
unfoldable pub with_params : Env → Text → GitRequest → GitRequest
with_params env path r = record r {
  repo = sanitize_repo env r.repo;
  file = trim_prefix path (str "/" ++ r.repo ++ str "/");
  service =
      if has_suffix path upload_pack
      then upload_pack
      else if has_suffix path receive_pack
      then receive_pack
      else r.service;
}

-- getServiceType
unfoldable pub get_service_type : GitRequest → Text
get_service_type r = if has_prefix r.form_service (str "git-") then r.form_service else []

abbrev pub service_of : GitRequest → Text
unfolding get_service_type
service_of r = if text_eq r.service [] then get_service_type r else r.service

abbrev pub is_upload : Text → Bool
is_upload service = text_eq service upload_pack || text_eq service upload_archive

abbrev pub is_post : Method → Bool
is_post method_post = true
is_post other = false

abbrev pub is_put : Method → Bool
is_put method_put = true
is_put other = false

-- the requests of Git LFS that change locks or upload an object
unfoldable pub is_lfs_write : Text → Method → Bool
is_lfs_write file method =
    if has_prefix file (str "info/lfs/locks")
    then has_suffix file (str "lfs/locks")
      || (has_suffix file (str "/unlock") && is_post method)
      || has_suffix file (str "lfs/locks/verify")
    else has_prefix file (str "info/lfs/objects/basic") && is_put method

abbrev pub bad_credentials : Option AuthError → Bool
bad_credentials (some invalid_token) = true
bad_credentials (some invalid_password) = true
bad_credentials other = false

-- a repository that is there, and that the user may read
abbrev pub readable : AccessLevel → Option Repo → Response
readable level none = not_found
readable level (some repo) =
    if ltbℤ level read_only_access then not_found else pass level (some repo)

-- the tests before the handler
unfoldable pub last_check : GitRequest → AccessLevel → Option AuthError → Option Repo → Response
last_check r level error repo =
    if r.go_get && not (ltbℤ level read_only_access)
    then pass level repo
    else if bad_credentials error
    then forbidden
    else readable level repo

-- the case of upload-pack and upload-archive
unfoldable pub check_upload : GitRequest → AccessLevel → Option AuthError → Option Repo → Response
unfolding last_check
check_upload r level error none = not_found
check_upload r level error (some repo) =
    if bad_credentials error
    then forbidden
    else if ltbℤ level read_only_access
    then unauthorized
    else last_check r level error (some repo)

abbrev pub lfs_refusal : Option AuthError → Option Repo → Response
lfs_refusal error none = lfs_not_found
lfs_refusal error (some repo) =
    if bad_credentials error then lfs_bad_credentials else lfs_unauthorized

-- the case of Git LFS
unfoldable pub check_lfs :
    Bool → GitRequest → AccessLevel → Option AuthError → Option Repo → Response
unfolding last_check
check_lfs enabled r level error repo =
    if not enabled
    then not_found
    else if is_lfs_write r.file r.method && ltbℤ level read_write_access
    then lfs_write_required
    else if ltbℤ level read_only_access
    then lfs_refusal error repo
    else last_check r level error repo

abbrev pub check_created : GitRequest → AccessLevel → Option Repo → Response
check_created r level none = internal_error
check_created r level (some repo) = check_upload r level none (some repo)

abbrev pub is_none : {A : Type 0} → Option A → Bool
is_none none = true
is_none (some a) = false

module _ (create : Text → Option ProtoUser → Exec Repo) where
  -- the repository of a push, created if there is none
  abbrev pub check_pushed :
      GitRequest → Option ProtoUser → AccessLevel → Option AuthError → Option Repo → Exec Response
  check_pushed r user level error (some repo) = pure (check_upload r level error (some repo))
  check_pushed r user level error none = do
    repo ← attempt (create r.repo user)
    pure (check_created r level repo)

  -- the switch on the service
  unfoldable pub check_service :
      Bool
      → GitRequest
      → Option ProtoUser
      → AccessLevel
      → Option AuthError
      → Option Repo
      → Exec Response
  unfolding check_upload check_lfs last_check
  check_service enabled r user level error repo =
      if text_eq (service_of r) receive_pack
      then (if ltbℤ level read_write_access
          then pure unauthorized
          else check_pushed r user level error repo)
      else if is_upload (service_of r)
      then pure (check_upload r level error repo)
      else if has_prefix r.file (str "info/lfs")
      then pure (check_lfs enabled r level error repo)
      else pure (last_check r level error repo)

  -- the part behind the authentication
  unfoldable pub check_user :
      Env
      → Host
      → Bool
      → GitRequest
      → Option Repo
      → Option ProtoUser
      → Option AuthError
      → Bool
      → Exec Response
  unfolding check_service
  check_user env host enabled r repo user error keyless =
      if is_none user && not keyless then pure unauthorized else do
        level ← access_level_for_user env host repo r.repo user
        check_service enabled r user level error repo

  -- withAccess; `enabled` is the configuration's LFS.Enabled
  unfoldable pub with_access : Env → Host → Crypto → ℕ → Bool → GitRequest → Exec Response
  unfolding check_user authenticate
  with_access env host crypto now enabled r = do
    repo ← attempt (repository env host r.repo)
    (user, error) ← authenticate env crypto now repo r.header
    keyless ← allow_keyless
    check_user env host enabled r repo user error keyless
