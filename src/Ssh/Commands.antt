-- ===== src/Ssh/Commands.antt =====
-- pkg/ssh/cmd: the commands on repositories, collaborators, users, settings, keys and tokens. A
-- command is given with the arguments that its number of arguments lets through, and with its flags.
pub mod Parse
pub mod Repository
pub mod Admin
pub mod Account
pub mod Allowed
pub mod Gaps
pub mod Webhooks
use soft_serve.Base.{
  ℕ, ◌+◌, Bool, true, false, not, ◌||◌, ◌&&◌, Option, none, some, List, [], ◌∷◌, ◌++◌, Text, str,
  text_eq, map, trim_suffix, if◌then◌else◌,
}
use soft_serve.Base.Int.{ℤ, pos, negsuc, ltbℤ}
use soft_serve.Access.{
  AccessLevel, no_access, read_only_access, read_write_access, string, parse_access_level,
}
use soft_serve.Env.{Env}
use soft_serve.Store.Schema.{Repo, AccessToken}
use soft_serve.Store.Exec
use soft_serve.Store.Exec.{Exec, user_not_found, token_not_found, invalid_argument, invalid_key}
use soft_serve.System.{Sys, ◌>>=◌, ◌>>◌, pure, raise, on_db}
use soft_serve.System.Cache.{Lru}
use soft_serve.Backend.Users
use soft_serve.Backend.Users.{ProtoUser, user_by_public_key}
use soft_serve.Backend.Repos
use soft_serve.Backend.Collabs.{collaborators}
use soft_serve.Backend.Tokens
use soft_serve.Backend.Settings
use soft_serve.Backend.Lifecycle
use soft_serve.Backend.Lifecycle.{Machine, Options, repositories}
use soft_serve.Ssh.Session.{
  Server, Session, check_if_readable, check_if_collab, check_if_readable_and_collab, check_if_admin,
}
use soft_serve.Ssh.Commands.Parse.{parse_bool, parse_int, join_words, show_bool, sort_texts}

-- The values that a command prints, line by line; the words around them are left out, and of the
-- table of tokens all but the names.
abbrev pub Output : Type 0
Output = List Text

-- The commands below `repo`; a change of a column has its value, and without one prints the column.
pub data RepoCommand : Type 0 where
  create : (repo : Text) (opts : Options) → RepoCommand
  delete is_mirror : (repo : Text) → RepoCommand
  rename : (repo new_name : Text) → RepoCommand
  description project_name hidden : (repo : Text) (values : List Text) → RepoCommand
  private : (repo : Text) (value : Option Text) → RepoCommand
  collab_add : (repo username : Text) (level : Option Text) → RepoCommand
  collab_remove : (repo username : Text) → RepoCommand
  collab_list : (repo : Text) → RepoCommand

-- The commands below `user` and `settings`
pub data AdminCommand : Type 0 where
  user_create : (username : Text) (admin : Bool) (key : Text) → AdminCommand
  user_add_pubkey user_remove_pubkey : (username : Text) (key : List Text) → AdminCommand
  user_set_admin user_set_username : (username value : Text) → AdminCommand
  user_info : (username : Text) → AdminCommand
  user_list : AdminCommand
  allow_keyless anon_access : (value : Option Text) → AdminCommand

-- The commands on the account of the session's user
pub data AccountCommand : Type 0 where
  info pubkey_list token_list : AccountCommand
  pubkey_add pubkey_remove : (key : List Text) → AccountCommand
  set_username : (username : Text) → AccountCommand
  token_create : (name : List Text) (expires_in : Text) → AccountCommand
  token_delete : (id : Text) → AccountCommand

-- the first argument of a command, if it has one
abbrev pub first_argument : AdminCommand → Text
first_argument (user_create username admin key) = username
first_argument (user_add_pubkey username key) = username
first_argument (user_remove_pubkey username key) = username
first_argument (user_set_admin username value) = username
first_argument (user_set_username username value) = username
first_argument (user_info username) = username
first_argument user_list = []
first_argument (allow_keyless none) = []
first_argument (allow_keyless (some v)) = v
first_argument (anon_access none) = []
first_argument (anon_access (some v)) = v

-- the level of collabAddCommand
abbrev pub level_or : Option Text → AccessLevel
level_or none = read_write_access
level_or (some v) = parse_access_level v

module _ {C : Type 0} where
  abbrev pub silent : Sys C (Unit {0}) → Sys C Output
  silent op = op >> pure []

  abbrev pub prints : {A : Type 0} → (A → Text) → Exec A → Sys C Output
  prints show get = do a ← on_db get; pure (show a ∷ [])

module _ (env : Env) where
  -- sshutils.ParseAuthorizedKey
  abbrev pub parse_authorized_key : Text → Exec Text
  parse_authorized_key s = elim (env.parse_key s) [
    | none ↦ Exec.raise invalid_key
    | some pk ↦ Exec.pure pk
  ]

  abbrev pub keys_of : Text → Exec (List Text)
  keys_of [] = Exec.pure []
  keys_of (c ∷ s) = Exec.◌>>=◌ (parse_authorized_key (c ∷ s)) (λ pk. Exec.pure (pk ∷ []))

  abbrev pub about : ProtoUser → Output
  about u = u.user.username ∷ show_bool u.user.admin ∷ map env.marshal_key u.public_keys
