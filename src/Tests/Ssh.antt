-- ===== src/Tests/Ssh.antt =====
-- The commands of git at concrete inputs.
use soft_serve.Base.{
  text_eq, trim_suffix, trim_prefix, has_prefix, Option, ◌≡◌, refl, true, none, some, [], str,
  text_eq, trim_suffix, trim_prefix,
}
use soft_serve.Paths.{clean_rooted, join, split, resolve_all}
use soft_serve.Names.{sanitize, sanitize_repo}
use soft_serve.Store.Schema.{Repo}
use soft_serve.Store.Repos.{get_repo_by_name}
use soft_serve.Store.Settings.{get_anon_access}
use soft_serve.Backend.Settings.{anon_access}
use soft_serve.Store.Exec.{or_else, ◌>>=◌, on_error, transaction, get_one, ok, err}
use soft_serve.Backend.Repos.{repository}
use soft_serve.Backend.Access.{access_level_for_user}
use soft_serve.Tests.Data.{env, host, db}
use soft_serve.Store.Exec.{io_error, attempt}
use soft_serve.Access.{AccessLevel}
use soft_serve.Names.{sanitize_repo}
use soft_serve.Store.Exec.{one, pure, get_one}
use soft_serve.Paths.{join_below}
use soft_serve.Ssh.Git.{run_service, GitHost, done, ran, receive_pack, git_run, ensure_within}
use soft_serve.Ssh.Git.Fetch.{git_run-fetch}
use soft_serve.Tests.Data.{open_repo}
use soft_serve.Ssh.Git.Served.{git_run-IsAllowed, IsAllowed}
use soft_serve.Tests.Data.{ann_session}

-- git succeeds, and no repository can be created or deleted
abbrev git : GitHost
git = record {
  create = λ name user db. (err io_error, db);
  delete = λ name db. (err io_error, db);
  outcome = λ service name operation. done;
  default_branch = λ name. true;
}

pushed :
    git_run env host git none receive_pack (str "a.git") [] (some ann_session) db
    ≡ (ok (ran receive_pack none), db)
unfolding git_run ◌>>=◌ access_level_for_user anon_access or_else transaction get_anon_access
    attempt repository on_error get_repo_by_name text_eq sanitize_repo trim_suffix clean_rooted join
    resolve_all trim_prefix sanitize join_below split ensure_within run_service get_one one pure
    has_prefix
pushed = refl

git_run-IsAllowed_example :
    (level : AccessLevel) × (repo : Option Repo) × (access_level_for_user env host none
        (sanitize_repo env (str "a.git"))
        (some ann_session)
        db
      ≡ (ok level, db))
    × (attempt (repository env host (sanitize_repo env (str "a.git"))) db ≡ (ok repo, db))
    × IsAllowed receive_pack [] level repo receive_pack
git_run-IsAllowed_example =
    git_run-IsAllowed env host git none receive_pack (str "a.git") [] (some ann_session)
      receive_pack none db db pushed

git_run-fetch_example :
    git_run env host git none (str "git-upload-pack") (str "a.git") [] (some ann_session) db
    ≡ (ok (ran (str "git-upload-pack") none), db)
unfolding repository on_error transaction get_repo_by_name get_one text_eq sanitize_repo trim_suffix
    clean_rooted join resolve_all split trim_prefix sanitize soft_serve.Names.validate_username
    soft_serve.Names.to_lower
git_run-fetch_example =
    git_run-fetch env host git (str "a.git") [] ann_session open_repo db refl refl refl
