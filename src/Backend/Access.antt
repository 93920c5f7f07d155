-- ===== src/Backend/Access.antt =====
-- pkg/backend/user.go: AccessLevelForUser on the tables. Its lookup of the repository fills the cache,
-- which Backend/Hosted models, with the callers.
pub mod Decide
pub mod Laws
use soft_serve.Base.{
  ℕ, Bool, true, false, Option, none, some, List, [], ◌∷◌, Text, ◌==◌, any, text_eq, if◌then◌else◌,
}
use soft_serve.Base.Int.{negsuc, ltbℤ}
use soft_serve.Access.{AccessLevel, no_access, read_only_access, read_write_access, admin_access}
use soft_serve.Env.{Env}
use soft_serve.Store.Schema.{Repo}
use soft_serve.Store.Exec.{Exec, ◌>>=◌, pure, or_else, attempt}
use soft_serve.Backend.Users.{ProtoUser, user, user_by_public_key}
use soft_serve.Backend.Repos.{Host, repository}
use soft_serve.Backend.Collabs.{is_collaborator}
use soft_serve.Backend.Settings.{anon_access}

abbrev pub is_admin : Option ProtoUser → Bool
is_admin none = false
is_admin (some u) = u.user.admin

abbrev pub owns : Option ProtoUser → Repo → Bool
owns none r = false
owns (some u) r = r.user_id == u.user.id

abbrev pub username_of : Option ProtoUser → Text
username_of none = []
username_of (some u) = u.user.username

-- the level of one who is not a collaborator, on a repository that exists
abbrev pub other_access : AccessLevel → Option ProtoUser → Repo → AccessLevel
other_access anon none r = if r.private then no_access else anon
other_access anon (some u) r = if r.private then no_access else read_only_access

-- the level without a repository
abbrev pub absent_access : AccessLevel → Option ProtoUser → AccessLevel
absent_access anon none = anon
absent_access anon (some u) = if ltbℤ read_write_access anon then anon else read_write_access

module _ (env : Env) where
  abbrev pub repo_access : AccessLevel → Text → Option ProtoUser → Option Repo → Exec AccessLevel
  repo_access anon repo u none = pure (absent_access anon u)
  repo_access anon repo u (some r) = if owns u r then pure admin_access else do
    (collab_access, is_collab) ←
        or_else (negsuc 0, false) (is_collaborator env repo (username_of u))
    if is_collab
        then pure (if ltbℤ collab_access anon then anon else collab_access)
        else pure (other_access anon u r)

module _ (env : Env) (host : Host) where
  abbrev pub context_or : Option Repo → Exec (Option Repo) → Exec (Option Repo)
  context_or none load = load
  context_or (some r) load = pure (some r)

  -- Backend.AccessLevelForUser; `context` is the repository of the request's context
  unfoldable pub access_level_for_user : Option Repo → Text → Option ProtoUser → Exec AccessLevel
  access_level_for_user context repo u = do
    anon ← anon_access
    if is_admin u then pure admin_access else do
      r ← context_or context (attempt (repository env host repo))
      repo_access env anon repo u r
