-- ===== src/Backend/Hosted.antt =====
-- Access levels (pkg/backend/user.go) and changes of collaborators (pkg/backend/collab.go) on the whole
-- state: their lookup of the repository reads the cache and the files, and fills the cache.
pub mod Lookups
use soft_serve.Base.{Bool, Option, none, some, List, Text, any, if◌then◌else◌}
use soft_serve.Access.{AccessLevel, admin_access}
use soft_serve.Env.{Env}
use soft_serve.Names.{sanitize_repo, to_lower, validate_username}
use soft_serve.Store.Schema.{Repo}
use soft_serve.Store.Exec
use soft_serve.Store.Exec.{Result, ok, err, valid}
use soft_serve.System.{World, Sys, ◌>>=◌, ◌>>◌, pure, on_db, attempt}
use soft_serve.System.Disk.{exists}
use soft_serve.System.Cache.{Lru, hit}
use soft_serve.Backend.Users.{ProtoUser, user, user_by_public_key}
use soft_serve.Backend.Repos.{Host}
use soft_serve.Backend.Collabs.{Hooks, add_found, remove_found}
use soft_serve.Backend.Settings.{anon_access}
use soft_serve.Backend.Access.{is_admin, username_of, repo_access}
use soft_serve.Backend.Lifecycle.{Machine, repository}

abbrev pub found_repo : Result Repo → Option Repo
found_repo (ok r) = some r
found_repo (err e) = none

module _ {C : Type 0} (lru : Lru C) (m : Machine) where
  -- what a lookup finds outside the tables
  abbrev pub host_of : World C → Host
  host_of w = record {
    cached = λ name. hit lru name w.cache;
    exists = λ path. exists path w.disk;
    data_path = m.data_path;
  }

module _ {C : Type 0} (env : Env) (lru : Lru C) (m : Machine) where
  -- AccessLevelForUser, without a repository in the request's context
  unfoldable pub level_for_user : Text → Option ProtoUser → Sys C AccessLevel
  level_for_user repo u = do
    anon ← on_db anon_access
    if is_admin u then pure admin_access else do
      r ← attempt (repository env lru m repo)
      on_db (repo_access env anon repo u (found_repo r))

  -- AccessLevel, likewise
  unfoldable pub level_for_name : Text → Text → Sys C AccessLevel
  unfolding level_for_user
  level_for_name repo username = do
    u ← on_db (Exec.attempt (user env username))
    level_for_user repo u

  -- AccessLevelByPublicKey, likewise; `keys_equal` is ssh.KeysEqual
  unfoldable pub level_by_public_key :
      (Text → Text → Bool) → List Text → Text → Text → Sys C AccessLevel
  unfolding level_for_name
  level_by_public_key keys_equal admin_keys repo pk =
      if any (keys_equal pk) admin_keys then pure admin_access else do
        u ← on_db (Exec.attempt (user_by_public_key env pk))
        level_for_name repo (username_of u)

module _ {C : Type 0} (env : Env) (lru : Lru C) (m : Machine) (hooks : Hooks) where
  -- AddCollaborator, for the user of the request's context
  unfoldable pub add_collaborator : Option ProtoUser → Text → Text → AccessLevel → Sys C (Unit {0})
  add_collaborator sender repo username level = do
    on_db (valid (validate_username env (to_lower env username)))
    r ← repository env lru m (sanitize_repo env repo)
    on_db (add_found env hooks sender r repo username level)

  -- RemoveCollaborator
  unfoldable pub remove_collaborator : Text → Text → Sys C (Unit {0})
  remove_collaborator repo username = do
    r ← repository env lru m (sanitize_repo env repo)
    on_db (remove_found env hooks r repo username)
