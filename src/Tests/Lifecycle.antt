-- ===== src/Tests/Lifecycle.antt =====
-- The operations on repositories, files and the cache at concrete inputs.
use soft_serve.Base.{
  ◌≡◌, refl, Bool, true, false, Option, none, some, [], ◌∷◌, ◌++◌, List, Text, str, text_eq,
  text_eq_iff, text_eq_refl, arith, if◌then◌else◌, Bool-cases, inl, inr, ap, ◌∙◌, sym,
}
use soft_serve.Store.Schema.{Repo, Db}
use soft_serve.Store.Exec.{ok, err, repo_exist, repo_not_found}
use soft_serve.System.{World, on_error, transaction, ◌>>=◌, on_db, reads_disk, on_disk, raise, pure}
use soft_serve.System.Disk.{Entry, Files, FilePath, is_under}
use soft_serve.System.Cache.{Lru, LruLaws, hit}
use soft_serve.Names.{sanitize_repo, repo_path, validate_repo}
use soft_serve.System.Disk.{exists}
use soft_serve.Base.{find, any}
use soft_serve.Store.Repos.{titled}
use soft_serve.Store.Consistent.{IsConsistent}
use soft_serve.Backend.Repos
use soft_serve.Backend.Lifecycle.{
  Machine, Options, path_of, repository, drop_cached, set_private_column, set_marker,
  delete_repository, create_repository, rename_repository,
}
use soft_serve.Base.{trim_suffix, trim_prefix, has_prefix}
use soft_serve.Paths.{clean_rooted, join, resolve_all, split, join_below}
use soft_serve.Names.{sanitize}
use soft_serve.Store.Exec
use soft_serve.Store.Exec.{valid, checked, get_one, one, gets, exec}
use soft_serve.Store.Schema.{delete_repos}
use soft_serve.Store.Lfs.{get_lfs_objects_by_name}
use soft_serve.Store.Repos.{
  create_repo, insert_repo, get_repo_by_name, delete_repo_by_name, set_repo_name_by_name,
  update_repo_name,
}
use soft_serve.System.{on_cache, deferred, attempt, for_each}
use soft_serve.System.Disk.{
  os_write_file, os_mkdir_all, os_remove_all, os_remove, os_rename, written, make_dirs, renamed,
  is_dir, is_file, entry, path_eq, is_empty, is_free, without, moved,
}
use soft_serve.GitHooks.{generate_hooks, generate_hook}
use soft_serve.Backend.Lifecycle.{
  create_body, create_files, load, delete_transaction, delete_body, delete_objects,
  rename_transaction, rename_valid,
}
use soft_serve.Backend.Lifecycle.Coherent.{IsSteady, IsCoherent}
use soft_serve.Backend.Lifecycle.Served.{
  RepoCall, look_up, publish, create, rename, delete, serve, serve-IsCoherent,
}
use soft_serve.Backend.Lifecycle.Created.{new_row, create_repository-row}
use soft_serve.Backend.Lifecycle.Deleted.{
  IsDeleted, delete_repository-IsDeleted, delete_repository-nested,
}
use soft_serve.Backend.Lifecycle.Renamed.{IsRenamed, rename_repository-IsRenamed}
use soft_serve.Backend.Lifecycle.Laws.{uncached, repository-uncached, set_private_column-stale}
use soft_serve.Tests.Data.{env, db, open_repo, secret_repo}

-- a cache that forgets nothing
abbrev pub Memory : Type 0
Memory = Text → Option Repo

abbrev pub memory : Lru Memory
memory = record {
  get = λ name c. (c name, c);
  add = λ name r c. λ k. if text_eq name k then some r else c k;
  remove = λ name c. λ k. if text_eq name k then none else c k;
}

pub memory-LruLaws : LruLaws memory
memory-LruLaws = record {
  hit-get = λ name other c. refl;
  hit-add = λ name r c. rw (text_eq_refl name) refl;
  hit-add_other = λ name other r s c n h. rw n at h;
  hit-remove = λ name c. rw (text_eq_refl name) refl;
  hit-remove_other = λ name other s c h. elim (Bool-cases (text_eq name other)) [
    | inl same ↦ absurd (ground (arith, rw same at h))
    | inr apart ↦ rw apart at h
  ];
}

-- no call of the operating system fails, and events are sent
abbrev pub machine : Machine
machine = record {
  data_path = str "data" ∷ [];
  faults = λ call d. none;
  stat_fails = λ p d. false;
  git_init = λ p d. (ok tt, d ++ record { at = p; content = none } ∷ []);
  new_event = λ a r. true;
  send_event = λ a r. true;
}

abbrev pub directory : FilePath → Entry
directory p = record { at = p; content = none }

abbrev pub repos_dir : FilePath
repos_dir = str "data" ∷ str "repos" ∷ []

-- the repositories a, b and a.git/c have directories; the last one lies in the first
abbrev pub files : Files
files =
    directory (str "data" ∷ [])
    ∷ directory repos_dir
    ∷ directory (repos_dir ++ str "a.git" ∷ [])
    ∷ directory (repos_dir ++ str "b.git" ∷ [])
    ∷ directory (repos_dir ++ str "a.git" ∷ str "c.git" ∷ [])
    ∷ []

abbrev pub world : World Memory
world = record { db = db; disk = files; cache = λ name. none }

abbrev nested_repo : Repo
nested_repo = record open_repo { id = 3; name = str "a.git/c" }

abbrev nested_db : Db
nested_db = record db { repos = open_repo ∷ secret_repo ∷ nested_repo ∷ []; next_repo = 4 }

abbrev nested_world : World Memory
nested_world = record world { db = nested_db }

pub twice_a : IsSteady env (str "a")
unfolding sanitize_repo soft_serve.Base.trim_suffix soft_serve.Paths.clean_rooted
    soft_serve.Paths.join soft_serve.Paths.resolve_all soft_serve.Paths.split
    soft_serve.Base.trim_prefix soft_serve.Names.sanitize
twice_a = refl

twice_d : IsSteady env (str "d")
unfolding sanitize_repo soft_serve.Base.trim_suffix soft_serve.Paths.clean_rooted
    soft_serve.Paths.join soft_serve.Paths.resolve_all soft_serve.Paths.split
    soft_serve.Base.trim_prefix soft_serve.Names.sanitize
twice_d = refl

pub db-IsConsistent : IsConsistent db
unfolding text_eq
db-IsConsistent = record {
  usernames = ((refl, tt), (tt, tt));
  user_ids_distinct = ((refl, tt), (tt, tt));
  user_ids_below = (omega arith, (omega arith, tt));
  keys = tt;
  key_user = tt;
  key_ids = (tt, tt);
  repo_names = ((refl, tt), (tt, tt));
  repo_ids_distinct = ((refl, tt), (tt, tt));
  repo_ids_below = (omega arith, (omega arith, tt));
  repo_user = (refl, (refl, tt));
  collabs = tt;
  collab_user = tt;
  collab_repo = tt;
  collab_ids = (tt, tt);
  tokens = ((refl, tt), (tt, tt));
  token_user = (refl, (refl, tt));
  token_ids = (((refl, tt), (tt, tt)), (omega arith, (omega arith, tt)));
  objects = tt;
  object_repo = tt;
  object_ids = (tt, tt);
  locks = tt;
  lock_user = tt;
  lock_repo = tt;
  lock_ids = (tt, tt);
  webhook_urls = tt;
  webhook_ids_distinct = tt;
  webhook_ids_below = tt;
  webhook_repo = tt;
  events = tt;
  event_webhook = tt;
  event_ids = (tt, tt);
  deliveries = tt;
  delivery_webhook = tt;
}

pub world-IsCoherent : IsCoherent env memory world.cache world.db
unfolding sanitize_repo soft_serve.Base.trim_suffix soft_serve.Paths.clean_rooted
    soft_serve.Paths.join soft_serve.Paths.resolve_all soft_serve.Paths.split
    soft_serve.Base.trim_prefix soft_serve.Names.sanitize
world-IsCoherent = record {
  tables = db-IsConsistent;
  names = (refl, (refl, tt));
  hits = λ name r e h. absurd (ground (arith, h));
}

abbrev pub options : Options
options = record {
  private = true;
  description = str "x";
  project_name = [];
  mirror = false;
  hidden = false;
}

abbrev calls : List RepoCall
calls =
    look_up (str "a")
    ∷ publish (str "a") true
    ∷ create (str "d") 2 options
    ∷ rename (str "d") (str "a")
    ∷ delete (str "a")
    ∷ []

serve-IsCoherent_example :
    IsCoherent env memory
      (serve env memory machine calls world).cache
      (serve env memory machine calls world).db
serve-IsCoherent_example =
    serve-IsCoherent env memory memory-LruLaws machine calls world
      (
        (twice_a, tt),
        ((twice_a, tt), ((twice_d, tt), ((twice_d, (twice_a, tt)), ((twice_a, tt), tt)))),
      )
      world-IsCoherent

there_a : exists (path_of env machine (str "a")) world.disk ≡ true
unfolding exists repo_path soft_serve.Paths.join_below soft_serve.Paths.resolve_all
    soft_serve.Paths.split sanitize_repo soft_serve.Base.trim_suffix soft_serve.Paths.clean_rooted
    soft_serve.Paths.join soft_serve.Base.trim_prefix soft_serve.Names.sanitize
there_a = refl

repository-uncached_example :
    ((repository env memory machine (str "a") world).0
      ≡ (Repos.repository env (uncached env memory machine world) (str "a") world.db).0)
    × ((repository env memory machine (str "a") world).1.db ≡ world.db)
    × ((repository env memory machine (str "a") world).1.disk ≡ world.disk)
unfolding sanitize_repo soft_serve.Base.trim_suffix soft_serve.Paths.clean_rooted
    soft_serve.Paths.join soft_serve.Paths.resolve_all soft_serve.Paths.split
    soft_serve.Base.trim_prefix soft_serve.Names.sanitize
repository-uncached_example =
    repository-uncached env memory machine (str "a") world twice_a world-IsCoherent there_a

abbrev between : World Memory
between =
    (repository env memory machine (str "a")
      (drop_cached memory (sanitize_repo env (str "a")) world).1).1

abbrev hidden_late : World Memory
hidden_late = (set_private_column env memory machine (sanitize_repo env (str "a")) true between).1

hidden_late_run :
    set_private_column env memory machine (sanitize_repo env (str "a")) true between
    ≡ (ok tt, hidden_late)
unfolding set_private_column sanitize_repo repository drop_cached repo_path set_marker on_error
    transaction ◌>>=◌ on_db reads_disk on_disk exists raise pure text_eq soft_serve.Base.trim_suffix
    soft_serve.Paths.clean_rooted soft_serve.Paths.join soft_serve.Paths.resolve_all
    soft_serve.Paths.split soft_serve.Base.trim_prefix soft_serve.Names.sanitize
    soft_serve.Paths.join_below soft_serve.Store.Repos.get_repo_by_name
    soft_serve.Store.Exec.get_one soft_serve.Store.Repos.set_repo_is_private_by_name
    soft_serve.Store.Repos.update_repo soft_serve.Store.Exec.exec
hidden_late_run = refl

set_private_column-stale_example :
    (find (titled (sanitize_repo env (str "a"))) hidden_late.db.repos
      ≡ some (record open_repo { private = true }))
    × ((repository env memory machine (str "a") hidden_late).0 ≡ ok open_repo)
unfolding sanitize_repo soft_serve.Base.trim_suffix soft_serve.Paths.clean_rooted
    soft_serve.Paths.join soft_serve.Paths.resolve_all soft_serve.Paths.split
    soft_serve.Base.trim_prefix soft_serve.Names.sanitize
set_private_column-stale_example =
    set_private_column-stale env memory memory-LruLaws machine (str "a") true open_repo world
      hidden_late twice_a there_a refl hidden_late_run

abbrev created : World Memory
created = (create_repository env memory machine (str "d") 2 options world).1

abbrev repo_d : Repo
repo_d = record open_repo {
  id = 3;
  name = str "d";
  description = str "x";
  private = true;
  user_id = 2;
}

created_run : create_repository env memory machine (str "d") 2 options world ≡ (ok repo_d, created)
unfolding create_repository sanitize_repo trim_suffix clean_rooted join resolve_all split
    trim_prefix sanitize text_eq has_prefix join_below repo_path validate_repo valid create_body
    create_files create_repo insert_repo checked generate_hooks generate_hook for_each os_write_file
    os_mkdir_all os_remove_all os_remove os_rename written make_dirs renamed is_dir is_file exists
    entry path_eq is_under on_db on_disk on_cache reads_disk on_error transaction deferred attempt
    ◌>>=◌ pure raise load repository get_repo_by_name Exec.on_error Exec.transaction get_one one
    Exec.◌>>=◌ delete_transaction delete_body delete_objects get_lfs_objects_by_name
    delete_repo_by_name delete_repos gets exec rename_transaction rename_valid set_repo_name_by_name
    update_repo_name is_empty is_free without moved
created_run = refl

create_repository-row_example :
    (repo_d ≡ new_row (sanitize_repo env (str "d")) 2 options world.db)
    × (find (titled (sanitize_repo env (str "d"))) created.db.repos ≡ some repo_d)
create_repository-row_example =
    create_repository-row env memory memory-LruLaws machine (str "d") 2 options repo_d world created
      twice_d world-IsCoherent created_run

valid_a : validate_repo env (sanitize_repo env (str "a")) ≡ none
unfolding validate_repo sanitize_repo soft_serve.Base.trim_suffix soft_serve.Paths.clean_rooted
    soft_serve.Paths.join soft_serve.Paths.resolve_all soft_serve.Paths.split
    soft_serve.Base.trim_prefix soft_serve.Names.sanitize
valid_a = refl

taken_a : any (titled (sanitize_repo env (str "a"))) world.db.repos ≡ true
unfolding sanitize_repo text_eq soft_serve.Base.trim_suffix soft_serve.Paths.clean_rooted
    soft_serve.Paths.join soft_serve.Paths.resolve_all soft_serve.Paths.split
    soft_serve.Base.trim_prefix soft_serve.Names.sanitize
taken_a = refl

abbrev deleted : World Memory
deleted = (delete_repository env memory machine (str "a") nested_world).1

deleted_run : delete_repository env memory machine (str "a") nested_world ≡ (ok tt, deleted)
unfolding delete_repository sanitize_repo trim_suffix clean_rooted join resolve_all split
    trim_prefix sanitize text_eq has_prefix join_below repo_path validate_repo valid create_body
    create_files create_repo insert_repo checked generate_hooks generate_hook for_each os_write_file
    os_mkdir_all os_remove_all os_remove os_rename written make_dirs renamed is_dir is_file exists
    entry path_eq is_under on_db on_disk on_cache reads_disk on_error transaction deferred attempt
    ◌>>=◌ pure raise load repository get_repo_by_name Exec.on_error Exec.transaction get_one one
    Exec.◌>>=◌ delete_transaction delete_body delete_objects get_lfs_objects_by_name
    delete_repo_by_name delete_repos gets exec rename_transaction rename_valid set_repo_name_by_name
    update_repo_name is_empty is_free without moved
deleted_run = refl

delete_repository-IsDeleted_example :
    IsDeleted env memory memory-LruLaws machine (sanitize_repo env (str "a")) nested_world deleted
    × (hit memory (sanitize_repo env (str "a")) deleted.cache ≡ none)
delete_repository-IsDeleted_example =
    delete_repository-IsDeleted env memory memory-LruLaws machine (str "a") nested_world deleted
      twice_a deleted_run

apart_a : text_eq (sanitize_repo env (str "a")) (str "a.git/c") ≡ false
unfolding sanitize_repo text_eq soft_serve.Base.trim_suffix soft_serve.Paths.clean_rooted
    soft_serve.Paths.join soft_serve.Paths.resolve_all soft_serve.Paths.split
    soft_serve.Base.trim_prefix soft_serve.Names.sanitize
apart_a = refl

inside_a :
    is_under
      (path_of env machine (sanitize_repo env (str "a")))
      (path_of env machine (str "a.git/c"))
    ≡ true
unfolding is_under repo_path soft_serve.Paths.join_below soft_serve.Paths.resolve_all
    soft_serve.Paths.split sanitize_repo soft_serve.Base.trim_suffix soft_serve.Paths.clean_rooted
    soft_serve.Paths.join soft_serve.Base.trim_prefix soft_serve.Names.sanitize
inside_a = refl

delete_repository-nested_example :
    (exists (path_of env machine (str "a.git/c")) deleted.disk ≡ false)
    × (find (titled (str "a.git/c")) deleted.db.repos ≡ some nested_repo)
unfolding text_eq
delete_repository-nested_example =
    delete_repository-nested env memory memory-LruLaws machine (str "a") (str "a.git/c") nested_repo
      nested_world deleted twice_a apart_a inside_a refl deleted_run

absent_d : find (titled (sanitize_repo env (str "d"))) world.db.repos ≡ none
unfolding sanitize_repo text_eq soft_serve.Base.trim_suffix soft_serve.Paths.clean_rooted
    soft_serve.Paths.join soft_serve.Paths.resolve_all soft_serve.Paths.split
    soft_serve.Base.trim_prefix soft_serve.Names.sanitize
absent_d = refl

abbrev moved_world : World Memory
moved_world = (rename_repository env memory machine (str "a") (str "d") world).1

renamed_run : rename_repository env memory machine (str "a") (str "d") world ≡ (ok tt, moved_world)
unfolding rename_repository sanitize_repo trim_suffix clean_rooted join resolve_all split
    trim_prefix sanitize text_eq has_prefix join_below repo_path validate_repo valid create_body
    create_files create_repo insert_repo checked generate_hooks generate_hook for_each os_write_file
    os_mkdir_all os_remove_all os_remove os_rename written make_dirs renamed is_dir is_file exists
    entry path_eq is_under on_db on_disk on_cache reads_disk on_error transaction deferred attempt
    ◌>>=◌ pure raise load repository get_repo_by_name Exec.on_error Exec.transaction get_one one
    Exec.◌>>=◌ delete_transaction delete_body delete_objects get_lfs_objects_by_name
    delete_repo_by_name delete_repos gets exec rename_transaction rename_valid set_repo_name_by_name
    update_repo_name is_empty is_free without moved
renamed_run = refl

differ : text_eq (sanitize_repo env (str "a")) (sanitize_repo env (str "d")) ≡ false
unfolding sanitize_repo text_eq soft_serve.Base.trim_suffix soft_serve.Paths.clean_rooted
    soft_serve.Paths.join soft_serve.Paths.resolve_all soft_serve.Paths.split
    soft_serve.Base.trim_prefix soft_serve.Names.sanitize
differ = refl

row_a : find (titled (sanitize_repo env (str "a"))) world.db.repos ≡ some open_repo
unfolding sanitize_repo text_eq soft_serve.Base.trim_suffix soft_serve.Paths.clean_rooted
    soft_serve.Paths.join soft_serve.Paths.resolve_all soft_serve.Paths.split
    soft_serve.Base.trim_prefix soft_serve.Names.sanitize
row_a = refl

rename_repository-IsRenamed_example :
    IsRenamed
      (sanitize_repo env (str "a"))
      (sanitize_repo env (str "d"))
      open_repo
      world.db
      moved_world.db
rename_repository-IsRenamed_example =
    rename_repository-IsRenamed env memory machine (str "a") (str "d") open_repo world moved_world
      twice_a twice_d differ row_a renamed_run
