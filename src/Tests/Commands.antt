-- ===== src/Tests/Commands.antt =====
-- The commands over SSH at concrete inputs.
use soft_serve.Base.{
  ◌≡◌, refl, Bool, true, false, not, Option, none, some, [], ◌∷◌, ◌++◌, List, Text, str, text_eq,
  text_eq_refl, find, update, arith, if◌then◌else◌,
}
use soft_serve.Base.Int.{ltbℤ}
use soft_serve.Names.{sanitize, sanitize_repo}
use soft_serve.Store.Schema.{Repo}
use soft_serve.Store.Exec.{ok, err, unauthorized, repo_not_found}
use soft_serve.Store.Users.{named}
use soft_serve.Store.Repos.{titled}
use soft_serve.System.{World}
use soft_serve.Ssh.Session.{Server, Session}
use soft_serve.Ssh.Session.Checks.{level_at, may_administer}
use soft_serve.Ssh.Commands.{delete, user_set_admin}
use soft_serve.Ssh.Commands.Repository.{run_repo}
use soft_serve.Ssh.Commands.Admin.{run_admin}
use soft_serve.Ssh.Commands.Allowed.{
  RefusedOr, needed_level, run_repo-IsAllowed, run_admin-IsAllowed,
}
use soft_serve.Ssh.Commands.Gaps.{run_admin-owner}
use soft_serve.Tests.Data.{env, hooks, db, ann, bob_session, open_repo, secret_repo}
use soft_serve.Tests.Lifecycle.{
  Memory, memory, memory-LruLaws, machine, directory, world, files, repos_dir,
}

abbrev pub server : Server
server = record {
  admin_keys = [];
  keys_equal = text_eq;
  hooks = hooks;
  now = 5;
  parse_duration = λ s. none;
  new_token = str "t";
}

abbrev pub by_bob : Session
by_bob = record { key = str "key"; user = some bob_session }

-- bob owns a repository that has the username of ann
abbrev pub ann_repo : Repo
ann_repo = record open_repo { id = 3; name = str "ann"; user_id = 2 }

abbrev pub owner_world : World Memory
owner_world = record world {
  db = record db { repos = open_repo ∷ secret_repo ∷ ann_repo ∷ []; next_repo = 4 };
  disk = files ++ directory (repos_dir ++ str "ann.git" ∷ []) ∷ [];
}

-- a command that is refused, and fills the cache
deletes_none :
    ((run_repo env memory machine server by_bob (delete (str "b")) world).0 ≡ err repo_not_found)
    × ((run_repo env memory machine server by_bob (delete (str "b")) world).1.cache (str "b")
        ≡ some secret_repo)
unfolding run_repo soft_serve.System.◌>>=◌ soft_serve.Ssh.Session.check_if_readable_and_collab
    soft_serve.Ssh.Session.check_if_readable soft_serve.Ssh.Session.level_on
    soft_serve.Backend.Hosted.level_for_user soft_serve.Backend.Lifecycle.repository
    soft_serve.Backend.Lifecycle.load soft_serve.System.pure soft_serve.System.raise
    soft_serve.System.on_db soft_serve.System.on_cache soft_serve.System.reads_disk
    soft_serve.System.on_error soft_serve.System.transaction soft_serve.System.attempt text_eq
    soft_serve.Store.Exec.◌>>=◌ soft_serve.Backend.Settings.anon_access
    soft_serve.Store.Exec.or_else soft_serve.Store.Exec.transaction
    soft_serve.Store.Settings.get_anon_access soft_serve.Store.Exec.attempt
    soft_serve.Backend.Repos.repository soft_serve.System.Disk.exists soft_serve.Names.repo_path
    soft_serve.Paths.join_below soft_serve.Paths.resolve_all soft_serve.Paths.split sanitize_repo
    soft_serve.Base.trim_suffix soft_serve.Paths.clean_rooted soft_serve.Paths.join
    soft_serve.Base.trim_prefix sanitize soft_serve.Store.Exec.on_error
    soft_serve.Store.Repos.get_repo_by_name soft_serve.Backend.Collabs.is_collaborator
    soft_serve.Store.Collabs.get_collab_by_username_and_repo soft_serve.Store.Users.lower_valid
    soft_serve.Names.validate_username soft_serve.Names.to_lower
deletes_none = (refl, refl)

run_repo-IsAllowed_example :
    RefusedOr (run_repo env memory machine server by_bob (delete (str "b"))) world (
      ltbℤ (level_at env memory machine world by_bob (str "b")) (needed_level (delete (str "b")))
      ≡ false)
run_repo-IsAllowed_example =
    run_repo-IsAllowed env memory memory-LruLaws machine server by_bob (delete (str "b")) world

run_admin-IsAllowed_example :
    RefusedOr
      (run_admin env memory machine server by_bob (user_set_admin (str "bob") (str "true")))
      world
      (may_administer env memory machine server world by_bob (str "bob") ≡ true)
run_admin-IsAllowed_example =
    run_admin-IsAllowed env memory machine server by_bob (user_set_admin (str "bob") (str "true"))
      world

run_admin-owner_example :
    let (result, after) =
      run_admin env memory machine server by_bob
        (user_set_admin (str "ann") (str "true"))
        owner_world in
    (result ≡ ok [])
    × (find (named (str "ann")) after.db.users ≡ some (record ann { admin = true }))
unfolding soft_serve.Names.to_lower soft_serve.Names.validate_username text_eq
    soft_serve.Backend.Repos.repository soft_serve.System.Disk.exists soft_serve.Names.repo_path
    soft_serve.Paths.join_below soft_serve.Paths.resolve_all soft_serve.Paths.split sanitize_repo
    soft_serve.Base.trim_suffix soft_serve.Paths.clean_rooted soft_serve.Paths.join
    soft_serve.Base.trim_prefix sanitize soft_serve.Store.Exec.on_error
    soft_serve.Store.Exec.transaction soft_serve.Backend.Repos.load_repository
    soft_serve.Base.has_prefix soft_serve.Names.first_byte soft_serve.Names.is_digit
    soft_serve.Names.is_letter soft_serve.Names.lower_char soft_serve.Names.username_char
    soft_serve.Paths.resolve soft_serve.Store.Exec.get_one soft_serve.Store.Exec.one
    soft_serve.Store.Exec.pure soft_serve.Store.Exec.raise soft_serve.Store.Repos.get_repo_by_name
    soft_serve.System.Disk.entry soft_serve.System.Disk.is_under soft_serve.System.Disk.path_eq
run_admin-owner_example =
    run_admin-owner env memory machine server (str "key") bob_session (str "ann") ann_repo ann
      owner_world refl refl refl refl refl
