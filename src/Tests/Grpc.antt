-- ===== src/Tests/Grpc.antt =====
-- The management server at concrete inputs.
use soft_serve.Base.{
  ◌≡◌, refl, Bool, true, false, not, Option, none, some, [], ◌∷◌, ◌++◌, List, Text, str, text_eq,
  text_eq_refl, find, update, arith, if◌then◌else◌,
}
use soft_serve.Base.Int.{pos}
use soft_serve.Names.{sanitize, sanitize_repo}
use soft_serve.Store.Repos.{titled}
use soft_serve.System.{World}
use soft_serve.Backend.Lifecycle.Columns.{HasRow}
use soft_serve.Grpc.{Reply, reply, status, invalid_argument}
use soft_serve.Grpc.Repositories.{UpdateRequest, update_repository}
use soft_serve.Grpc.Repositories.Updated.{updated, update_repository-row}
use soft_serve.Grpc.Access.{UpdateSettingsRequest, get_settings, update_settings}
use soft_serve.Grpc.Access.Settled.{update_settings-get_settings}
use soft_serve.Grpc.Urls.{Config, get_clone_urls}
use soft_serve.Tests.Data.{env, db, open_repo}
use soft_serve.Tests.Lifecycle.{
  Memory, memory, memory-LruLaws, machine, world, twice_a, world-IsCoherent,
}

abbrev req : UpdateRequest
req = record {
  name = str "a";
  description = none;
  is_private = none;
  is_hidden = some true;
  project_name = some (str "A");
}

world-HasRow : HasRow env memory (str "a") open_repo world
unfolding text_eq sanitize_repo soft_serve.Base.trim_suffix soft_serve.Paths.clean_rooted
    soft_serve.Paths.join soft_serve.Paths.resolve_all soft_serve.Paths.split
    soft_serve.Base.trim_prefix sanitize
world-HasRow = record { coherent = world-IsCoherent; row = refl }

update_run :
    update_repository env memory machine req world
    ≡ (reply (updated env req open_repo), (update_repository env memory machine req world).1)
unfolding update_repository soft_serve.Grpc.◌>>=◌ soft_serve.Grpc.required soft_serve.Grpc.given
    soft_serve.Grpc.calling soft_serve.Backend.Lifecycle.set_hidden soft_serve.System.◌>>=◌
    soft_serve.System.on_error soft_serve.System.transaction soft_serve.System.on_db
    soft_serve.Store.Repos.set_repo_is_hidden_by_name soft_serve.Store.Repos.update_repo
    soft_serve.Store.Exec.exec soft_serve.Backend.Lifecycle.set_project_name
    soft_serve.Store.Repos.set_repo_project_name_by_name soft_serve.Backend.Lifecycle.repository
    text_eq soft_serve.Backend.Lifecycle.announce soft_serve.Backend.Lifecycle.drop_cached
    soft_serve.Backend.Lifecycle.load soft_serve.Backend.Lifecycle.set_description
    soft_serve.Backend.Lifecycle.set_marker soft_serve.Backend.Lifecycle.set_private
    soft_serve.Backend.Lifecycle.set_private_column soft_serve.Base.has_prefix
    soft_serve.Base.trim_prefix soft_serve.Base.trim_suffix soft_serve.Names.repo_path sanitize
    sanitize_repo soft_serve.Paths.clean_rooted soft_serve.Paths.join soft_serve.Paths.join_below
    soft_serve.Paths.resolve soft_serve.Paths.resolve_all soft_serve.Paths.split
    soft_serve.Store.Exec.get_one soft_serve.Store.Exec.one soft_serve.Store.Repos.get_repo_by_name
    soft_serve.Store.Repos.set_repo_description_by_name
    soft_serve.Store.Repos.set_repo_is_private_by_name soft_serve.System.Disk.entry
    soft_serve.System.Disk.exists soft_serve.System.Disk.is_dir soft_serve.System.Disk.is_empty
    soft_serve.System.Disk.is_under soft_serve.System.Disk.os_remove
    soft_serve.System.Disk.os_write_file soft_serve.System.Disk.path_eq
    soft_serve.System.Disk.removed soft_serve.System.Disk.written soft_serve.System.on_cache
    soft_serve.System.on_disk soft_serve.System.pure soft_serve.System.raise
    soft_serve.System.reads_disk
update_run = refl

update_repository-row_example :
    (updated env req open_repo ≡ updated env req open_repo)
    × (find
          (titled (sanitize_repo env (str "a")))
          (update_repository env memory machine req world).1.db.repos
        ≡ some (updated env req open_repo))
update_repository-row_example =
    update_repository-row env memory memory-LruLaws machine req open_repo
      (updated env req open_repo) world (update_repository env memory machine req world).1 twice_a
      world-HasRow update_run

abbrev settings_world : World Memory
settings_world = record world { db = record db { allow_keyless = some true } }

abbrev settings_req : UpdateSettingsRequest
settings_req = record { allow_keyless = none; anon_access = some (pos 2) }

update_settings-get_settings_example :
    let (answer, after) = update_settings settings_req settings_world in
    (answer ≡ reply (record { allow_keyless = true; anon_access = pos 2 }))
    × (get_settings after ≡ (answer, after))
update_settings-get_settings_example =
    update_settings-get_settings settings_req true (str "read-write") settings_world refl refl

abbrev config : Config
config = record {
  ssh_public_url = str "ssh://git.example/";
  ssh_enabled = true;
  ssh_listen_addr = str ":23231";
  http_public_url = [];
  http_enabled = true;
  http_listen_addr = str ":23232";
  tls_cert_path = str "c";
  tls_key_path = [];
  git_enabled = false;
  git_listen_addr = [];
}

clone_urls :
    (get_clone_urls config (str "a") world).0
    ≡ reply (record {
      ssh_url = str "ssh://git.example/a";
      http_url = str "http://:23232/a.git";
      git_url = [];
    })
unfolding get_clone_urls soft_serve.Grpc.◌>>=◌
clone_urls = refl
