-- ===== src/Ssh/Commands/Allowed.antt =====
-- The access that the commands of pkg/ssh/cmd need.
use soft_serve.Base.{
  ◌≡◌, ◌∙◌, ◌⊎◌, inl, inr, Bool, true, false, Option, none, some, List, [], ◌∷◌, Text,
}
use soft_serve.Base.Int.{ltbℤ}
use soft_serve.Access.{AccessLevel, read_only_access, read_write_access}
use soft_serve.Env.{Env}
use soft_serve.Store.Exec.{invalid_argument}
use soft_serve.Ssh.Commands.Parse.{parse_bool}
use soft_serve.System.{World, Sys, ◌>>◌, raise}
use soft_serve.System.Cache.{Lru, LruLaws}
use soft_serve.Backend.Lifecycle.{Machine}
use soft_serve.Ssh.Session.{
  Server, Session, check_if_readable, check_if_collab, check_if_readable_and_collab, check_if_admin,
}
use soft_serve.Ssh.Session.Checks.{
  Refused, Verdict, with_cache, check-bind, level_at, may_administer, check_if_readable-Verdict,
  check_if_collab-Verdict, check_if_readable_and_collab-Verdict, check_if_admin-Verdict,
}
use soft_serve.Ssh.Commands.{
  Output, RepoCommand, create, delete, is_mirror, rename, description, project_name, hidden,
  private, collab_add, collab_remove, collab_list, AdminCommand, first_argument,
}
use soft_serve.Ssh.Commands.Repository.{run_repo, set_parsed}
use soft_serve.Ssh.Commands.Admin.{run_admin}

-- the repository that a command names, and the level that it needs there
abbrev pub repo_named : RepoCommand → Text
repo_named (create repo opts) = repo
repo_named (delete repo) = repo
repo_named (is_mirror repo) = repo
repo_named (rename repo new_name) = repo
repo_named (description repo values) = repo
repo_named (project_name repo values) = repo
repo_named (hidden repo values) = repo
repo_named (private repo value) = repo
repo_named (collab_add repo username level) = repo
repo_named (collab_remove repo username) = repo
repo_named (collab_list repo) = repo

abbrev for_values : List Text → AccessLevel
for_values [] = read_only_access
for_values (v ∷ vs) = read_write_access

-- printing a column needs read-only access, and all else but `is-mirror` read-write access
abbrev pub needed_level : RepoCommand → AccessLevel
needed_level (is_mirror repo) = read_only_access
needed_level (description repo values) = for_values values
needed_level (project_name repo values) = for_values values
needed_level (hidden repo []) = read_only_access
needed_level (hidden repo (v ∷ [])) = read_write_access
needed_level (hidden repo (v ∷ w ∷ vs)) = read_only_access
needed_level (private repo none) = read_only_access
needed_level (private repo (some v)) = read_write_access
needed_level other = read_write_access

-- The operation is refused, with an error and with tables and files unchanged; or the statement holds.
abbrev pub RefusedOr : {C A : Type 0} → Sys C A → World C → Type 0 → Type 0
RefusedOr op w P = Refused op w ⊎ P

module _ {C : Type 0} where
  allowed :
      {A : Type 0} (check : Sys C (Unit {0})) (op : Sys C A) (w : World C) {P : C → Type 0}
      {Q : Type 0}
      → Verdict check w P
      → ((c : C) → P c → Q)
      → RefusedOr (check >> op) w Q
  allowed check op w v k = elim (check-bind check op w v) [
    | inl r ↦ inl r
    | inr (c, same, p) ↦ inr (k c p)
  ]

module _ {C : Type 0} (env : Env) (lru : Lru C) (laws : LruLaws lru) (m : Machine)
    (server : Server) where
  -- the level is enough on the repository that the command names
  abbrev HasLevel : World C → Session → Text → AccessLevel → Type 0
  HasLevel w s repo needed = ltbℤ (level_at env lru m w s repo) needed ≡ false

  reads :
      {A : Type 0} (s : Session) (repo : Text) (op : Sys C A) (w : World C)
      → RefusedOr (check_if_readable env lru m s repo >> op) w (HasLevel w s repo read_only_access)
  reads s repo op w =
      allowed _ op w (check_if_readable-Verdict env lru laws m s repo w) λ c (enough, _). enough

  writes :
      {A : Type 0} (s : Session) (repo : Text) (op : Sys C A) (w : World C)
      → RefusedOr (check_if_collab env lru m s repo >> op) w (HasLevel w s repo read_write_access)
  writes s repo op w =
      allowed _ op w (check_if_collab-Verdict env lru laws m s repo w) λ c (enough, _). enough

  reads_and_writes :
      {A : Type 0} (s : Session) (repo : Text) (op : Sys C A) (w : World C)
      → RefusedOr
          (check_if_readable_and_collab env lru m s repo >> op)
          w
          (HasLevel w s repo read_write_access)
  reads_and_writes s repo op w =
      allowed _ op w (check_if_readable_and_collab-Verdict env lru laws m s repo w)
        λ c (enough, _). enough

  -- a second check behind the first
  reads_then_writes :
      {A : Type 0} (s : Session) (repo : Text) (op : Sys C A) (w : World C)
      → RefusedOr
          (check_if_readable env lru m s repo >> (check_if_collab env lru m s repo >> op))
          w
          (HasLevel w s repo read_write_access)
  reads_then_writes s repo op w =
      elim (check-bind _ (check_if_collab env lru m s repo >> op) w
        (check_if_readable-Verdict env lru laws m s repo w)) [
          | inl r ↦ inl r
          | inr (c, same, (_, again)) ↦ elim (writes s repo op (with_cache w c)) [
            | inl (e, d, h) ↦ inl (e, d, same ∙ h)
            | inr enough ↦ inr (rw again at enough)
          ]
        ]

  private_allowed :
      (s : Session) (repo : Text) (value : Option Bool) (w : World C)
      → RefusedOr
          (check_if_readable env lru m s repo >> set_parsed env lru m server s repo value)
          w
          (HasLevel w s repo read_write_access)
  private_allowed s repo none w =
      elim (check-bind _ (raise {A = Output} invalid_argument) w
        (check_if_readable-Verdict env lru laws m s repo w)) [
          | inl r ↦ inl r
          | inr (c, same, _) ↦ inl (invalid_argument, c, unfold raise in same)
        ]
  private_allowed s repo (some value) w = reads_then_writes s repo _ w

  -- A command on a repository is refused, with an error and with tables and files unchanged, or the
  -- access decision for the session's user and the repository that is named gives, in the state in which
  -- the command starts, the level that it needs. A refused command may have filled the cache with the
  -- repository, and the cache works as its documentation says.
  pub run_repo-IsAllowed :
      (s : Session) (c : RepoCommand) (w : World C)
      → RefusedOr
          (run_repo env lru m server s c)
          w
          (ltbℤ (level_at env lru m w s (repo_named c)) (needed_level c) ≡ false)
  unfolding run_repo
  run_repo-IsAllowed s (create repo opts) w = writes s repo _ w
  run_repo-IsAllowed s (delete repo) w = reads_and_writes s repo _ w
  run_repo-IsAllowed s (is_mirror repo) w = reads s repo _ w
  run_repo-IsAllowed s (rename repo new_name) w = reads_and_writes s repo _ w
  run_repo-IsAllowed s (description repo []) w = reads s repo _ w
  run_repo-IsAllowed s (description repo (v ∷ vs)) w = reads_then_writes s repo _ w
  run_repo-IsAllowed s (project_name repo []) w = reads s repo _ w
  run_repo-IsAllowed s (project_name repo (v ∷ vs)) w = reads_then_writes s repo _ w
  run_repo-IsAllowed s (hidden repo []) w = reads s repo _ w
  run_repo-IsAllowed s (hidden repo (v ∷ [])) w = reads_then_writes s repo _ w
  run_repo-IsAllowed s (hidden repo (v ∷ x ∷ vs)) w = reads s repo _ w
  run_repo-IsAllowed s (private repo none) w = reads s repo _ w
  run_repo-IsAllowed s (private repo (some v)) w = private_allowed s repo (parse_bool v) w
  run_repo-IsAllowed s (collab_add repo username level) w = reads_and_writes s repo _ w
  run_repo-IsAllowed s (collab_remove repo username) w = reads_and_writes s repo _ w
  run_repo-IsAllowed s (collab_list repo) w = reads_and_writes s repo _ w

module _ {C : Type 0} (env : Env) (lru : Lru C) (m : Machine) (server : Server) where
  -- A command on users or settings is refused, with an error and with tables and files unchanged, or the
  -- key of the session is an administrator's, or its user is an administrator or has admin access to the
  -- repository that the first argument of the command names. A refused command may have filled the
  -- cache with that repository.
  pub run_admin-IsAllowed :
      (s : Session) (c : AdminCommand) (w : World C)
      → RefusedOr
          (run_admin env lru m server s c)
          w
          (may_administer env lru m server w s (first_argument c) ≡ true)
  unfolding run_admin
  run_admin-IsAllowed s c w =
      allowed (check_if_admin env lru m server s (first_argument c)) _ w
        (check_if_admin-Verdict env lru m server s (first_argument c) w) λ cache may. may
