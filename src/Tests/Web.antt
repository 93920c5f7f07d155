-- ===== src/Tests/Web.antt =====
-- The gate of the HTTP server at concrete inputs.
use soft_serve.Base.{
  Option, ◌≡◌, refl, true, false, none, some, [], Text, str, text_eq, trim_suffix, trim_prefix,
}
use soft_serve.Access.{read_only_access}
use soft_serve.Paths.{clean_rooted, join, split, resolve_all}
use soft_serve.Names.{sanitize, to_lower, sanitize_repo, validate_username}
use soft_serve.Store.Schema.{Repo}
use soft_serve.Store.Users.{lower_valid}
use soft_serve.Store.Repos.{get_repo_by_name}
use soft_serve.Store.Tokens.{get_access_token_by_token}
use soft_serve.Store.Users.{find_user_by_access_token, list_public_keys_by_user_id}
use soft_serve.Store.Settings.{get_anon_access}
use soft_serve.Store.Collabs.{get_collab_by_username_and_repo}
use soft_serve.Backend.Settings.{anon_access}
use soft_serve.Backend.Collabs.{is_collaborator}
use soft_serve.Store.Exec.{or_else, ◌>>=◌, on_error, transaction, get_one, ok, err}
use soft_serve.Backend.Users.{ProtoUser, user_by_access_token}
use soft_serve.Backend.Repos.{repository}
use soft_serve.Backend.Access.{access_level_for_user}
use soft_serve.Tests.Data.{env, host, bob_session, open_repo, db}
use soft_serve.Store.Exec.{Exec, io_error, attempt}
use soft_serve.Web.Auth.{cut, Crypto, authenticate}
use soft_serve.Web.Gate.{GitRequest, method_put, upload_pack, pass, with_access}
use soft_serve.Web.Gate.Served.{with_access-IsDecided, with_access-form_service, Login}

abbrev crypto : Crypto
crypto = record {
  verify_password = λ password hash. false;
  key_pair = true;
  parse_claims = λ audience bearer. none;
}

-- no repository can be created
abbrev create : Text → Option ProtoUser → Exec Repo
create name user db = (err io_error, db)

-- bob uploads an object of Git LFS to ann's repository
abbrev upload : GitRequest
upload = record {
  repo = str "a";
  file = str "info/lfs/objects/basic/00";
  service = [];
  form_service = upload_pack;
  method = method_put;
  go_get = false;
  header = record { text = str "token y"; basic = none };
}

found : attempt (repository env host (str "a")) db ≡ (ok (some open_repo), db)
unfolding attempt repository on_error transaction get_repo_by_name get_one text_eq sanitize_repo
    trim_suffix clean_rooted join resolve_all split trim_prefix sanitize
found = refl

logged_in :
    authenticate env crypto 5 (some open_repo) upload.header db ≡ (ok (some bob_session, none), db)
unfolding authenticate ◌>>=◌ text_eq cut to_lower attempt user_by_access_token on_error transaction
    get_access_token_by_token find_user_by_access_token list_public_keys_by_user_id
logged_in = refl

reads :
    access_level_for_user env host (some open_repo) (str "a") (some bob_session) db
    ≡ (ok read_only_access, db)
unfolding access_level_for_user ◌>>=◌ anon_access or_else transaction get_anon_access
    is_collaborator text_eq on_error get_collab_by_username_and_repo lower_valid validate_username
    to_lower
reads = refl

passes :
    with_access create env host crypto 5 false upload db
    ≡ (ok (pass read_only_access (some open_repo)), db)
passes =
    with_access-form_service create env host crypto 5 false upload open_repo bob_session db refl
      refl found logged_in reads

with_access-form_service_example :
    with_access create env host crypto 5 false upload db
    ≡ (ok (pass read_only_access (some open_repo)), db)
with_access-form_service_example =
    with_access-form_service create env host crypto 5 false upload open_repo bob_session db refl
      refl found logged_in reads

with_access-IsDecided_example :
    (repo : Option Repo) × (attempt (repository env host (str "a")) db ≡ (ok repo, db))
    × Login create env host crypto 5 false upload read_only_access (some open_repo) db db repo
with_access-IsDecided_example =
    with_access-IsDecided create env host crypto 5 false upload read_only_access (some open_repo) db
      db passes
