-- ===== src/Ssh/Session.antt =====
-- pkg/ssh/cmd/cmd.go: who runs a command over SSH, and the checks before a command.

pub mod Checks
use soft_serve.Base.{ℕ, Bool, Option, none, some, List, Text, any, if◌then◌else◌}
use soft_serve.Base.Int.{ltbℤ}
use soft_serve.Access.{AccessLevel, read_only_access, read_write_access, admin_access}
use soft_serve.Env.{Env}
use soft_serve.Names.{sanitize_repo}
use soft_serve.Store.Exec.{repo_not_found, unauthorized}
use soft_serve.System.{Sys, ◌>>=◌, ◌>>◌, pure, raise}
use soft_serve.System.Cache.{Lru}
use soft_serve.Backend.Users.{ProtoUser}
use soft_serve.Backend.Collabs.{Hooks}
use soft_serve.Backend.Lifecycle.{Machine}
use soft_serve.Backend.Hosted.{level_for_user}

-- What a command takes from the configuration and from outside: the keys of the administrators,
-- ssh.KeysEqual, the outcome of the webhook events of collaborators, the time, the parser of
-- durations, and the random text of a new token.
pub record Server : Type 0 where
  pub admin_keys : List Text
  pub keys_equal : Text → Text → Bool
  pub hooks : Hooks
  pub now : ℕ
  pub parse_duration : Text → Option ℕ
  pub new_token : Text

-- the public key of the connection, empty without one, and the user that it named at the start
pub record Session : Type 0 where
  pub key : Text
  pub user : Option ProtoUser

module _ (server : Server) where
  -- IsPublicKeyAdmin
  abbrev pub is_public_key_admin : Text → Bool
  is_public_key_admin pk = any (server.keys_equal pk) server.admin_keys

module _ {C : Type 0} (env : Env) (lru : Lru C) (m : Machine) where
  -- the level of the session's user on a repository, named by the first argument of the command
  unfoldable pub level_on : Session → Text → Sys C AccessLevel
  unfolding level_for_user
  level_on s arg = level_for_user env lru m (sanitize_repo env arg) s.user

  -- checkIfReadable
  unfoldable pub check_if_readable : Session → Text → Sys C (Unit {0})
  check_if_readable s arg = do
    auth ← level_on s arg
    if ltbℤ auth read_only_access then raise repo_not_found else pure tt

  -- checkIfCollab
  unfoldable pub check_if_collab : Session → Text → Sys C (Unit {0})
  check_if_collab s arg = do
    auth ← level_on s arg
    if ltbℤ auth read_write_access then raise unauthorized else pure tt

  -- checkIfReadableAndCollab
  unfoldable pub check_if_readable_and_collab : Session → Text → Sys C (Unit {0})
  check_if_readable_and_collab s arg = check_if_readable s arg >> check_if_collab s arg

  abbrev user_admin : Session → Text → Option ProtoUser → Sys C (Unit {0})
  user_admin s arg none = raise unauthorized
  user_admin s arg (some u) =
      if u.user.admin
      then pure tt
      else do auth ← level_on s arg; if ltbℤ auth admin_access then raise unauthorized else pure tt

  -- checkIfAdmin: the first argument of the command, whatever it stands for, is taken for a repository
  unfoldable pub check_if_admin : Server → Session → Text → Sys C (Unit {0})
  check_if_admin server s arg =
      if is_public_key_admin server s.key then pure tt else user_admin s arg s.user
