-- ===== src/Ssh/Git/Fetch.antt =====
-- The fetches of gitRunE (pkg/ssh/cmd/git.go).
use soft_serve.Base.{
  ◌≡◌, ◌∙◌, ap, refl, false, ◌||◌, Option, none, some, Text, str, text_eq, ◌==◌, Bool-cases, inl,
  inr,
}
use soft_serve.Base.Int.{ltbℤ}
use soft_serve.Access.{AccessLevel, read_only_access}
use soft_serve.Env.{Env}
use soft_serve.Names.{sanitize_repo}
use soft_serve.Store.Schema.{Repo, Db}
use soft_serve.Store.Exec.{ok, ◌>>=◌, pure, attempt}
use soft_serve.Backend.Users.{ProtoUser}
use soft_serve.Backend.Repos.{Host, repository}
use soft_serve.Backend.Access.{access_level_for_user}
use soft_serve.Backend.Access.Decide.{
  anon_of, collab_of, repo_of, decide, access_level_for_user-decide, attempt-repository,
}
use soft_serve.Ssh.Git.{
  GitHost, GitError, invalid_repo, system_malfunction, Outcome, done, invalid, failed, ran, git_run,
  run_service, run_upload,
}
use soft_serve.Ssh.Git.Within.{ensure_within-sanitize_repo}

-- what the client of a fetch is told of its end
abbrev pub told : Outcome → Option GitError
told done = none
told invalid = some invalid_repo
told failed = some system_malfunction

-- everyone who is no collaborator may read a public repository
decide-readable :
    (env : Env) (anon : AccessLevel) (v : ProtoUser) (r : Repo)
    → r.private ≡ false
    → ltbℤ (decide env anon (some v) (some r) none) read_only_access ≡ false
decide-readable env anon v r open' = elim (Bool-cases (v.user.admin || (r.user_id == v.user.id))) [
  | inl high ↦ rw high
  | inr low ↦ rw (low, open')
]

module _ (env : Env) (host : Host) (git : GitHost) (arg operation : Text) where
  run_readable :
      (level : AccessLevel) (repo : Repo) (user : Option ProtoUser) (db : Db)
      → access_level_for_user env host none (sanitize_repo env arg) user db ≡ (ok level, db)
      → ltbℤ level read_only_access ≡ false
      → attempt (repository env host (sanitize_repo env arg)) db ≡ (ok (some repo), db)
      → (o : Outcome) → git.outcome (str "git-upload-pack") (sanitize_repo env arg) operation ≡ o
      → git_run env host git none (str "git-upload-pack") arg operation user db
        ≡ (ok (ran (str "git-upload-pack") (told o)), db)
  unfolding git_run run_service run_upload text_eq pure ◌>>=◌
  run_readable level repo user db decided readable found done end =
      rw (decided, ensure_within-sanitize_repo env host.data_path arg, found, readable, end) refl
  run_readable level repo user db decided readable found invalid end =
      rw (decided, ensure_within-sanitize_repo env host.data_path arg, found, readable, end) refl
  run_readable level repo user db decided readable found failed end =
      rw (decided, ensure_within-sanitize_repo env host.data_path arg, found, readable, end) refl

  -- A fetch over SSH of a public repository that the backend finds runs git-upload-pack for every user
  -- who is no collaborator, whatever the name is that the client sends; the client gets no error if
  -- git-upload-pack succeeds, ErrInvalidRepo if it ends with that error, and ErrSystemMalfunction if it
  -- fails otherwise; and the database is unchanged.
  pub git_run-fetch :
      (v : ProtoUser) (repo : Repo) (db : Db)
      → repo_of env host db none (sanitize_repo env arg) ≡ some repo
      → repo.private ≡ false
      → collab_of env db (sanitize_repo env arg) v.user.username ≡ none
      → git_run env host git none (str "git-upload-pack") arg operation (some v) db ≡ (
        ok (
            ran
              (str "git-upload-pack")
              (told (git.outcome (str "git-upload-pack") (sanitize_repo env arg) operation))),
        db,
      )
  git_run-fetch v repo db found open' outside =
      run_readable (decide env (anon_of db) (some v) (some repo) none) repo (some v) db decided
        (decide-readable env (anon_of db) v repo open')
        (attempt-repository env host db (sanitize_repo env arg) ∙ ap (λ r. (ok r, db)) found)
        (git.outcome (str "git-upload-pack") (sanitize_repo env arg) operation) refl
    where
      decided :
          access_level_for_user env host none (sanitize_repo env arg) (some v) db
          ≡ (ok (decide env (anon_of db) (some v) (some repo) none), db)
      decided = rw (
        access_level_for_user-decide env host none (sanitize_repo env arg) (some v) db,
        found,
        outside,
      )
