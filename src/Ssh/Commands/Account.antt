-- ===== src/Ssh/Commands/Account.antt =====
-- pkg/ssh/cmd: the commands on the account of the session's user, and the list of repositories.
use soft_serve.Base.{
  ℕ, ◌+◌, Bool, not, ◌||◌, ◌&&◌, Option, none, some, List, [], ◌∷◌, Text, str, map, if◌then◌else◌,
}
use soft_serve.Base.Int.{ℤ, pos, negsuc, ltbℤ}
use soft_serve.Access.{read_only_access}
use soft_serve.Env.{Env}
use soft_serve.Store.Schema.{Repo, AccessToken}
use soft_serve.Store.Exec.{user_not_found, token_not_found, invalid_argument}
use soft_serve.System.{Sys, ◌>>=◌, pure, raise, on_db}
use soft_serve.System.Cache.{Lru}
use soft_serve.Backend.Users
use soft_serve.Backend.Users.{ProtoUser, user_by_public_key}
use soft_serve.Backend.Tokens
use soft_serve.Backend.Lifecycle.{Machine, repositories}
use soft_serve.Backend.Hosted.{level_by_public_key}
use soft_serve.Ssh.Session.{Server, Session}
use soft_serve.Ssh.Commands.Parse.{parse_int, join_words}
use soft_serve.Ssh.Commands.{
  Output, AccountCommand, info, pubkey_list, token_list, pubkey_add, pubkey_remove, set_username,
  token_create, token_delete, silent, parse_authorized_key, about,
}

module _ {C : Type 0} (env : Env) (lru : Lru C) (m : Machine) (server : Server) where
  -- be.UserByPublicKey, with the key of the session
  abbrev account : Session → Sys C ProtoUser
  account s = on_db (user_by_public_key env s.key)

  abbrev signed_in : Option ProtoUser → Sys C ProtoUser
  signed_in none = raise user_not_found
  signed_in (some u) = pure u

  abbrev expiry : Text → Sys C (Option ℕ)
  expiry [] = pure none
  expiry (c ∷ s) = elim (server.parse_duration (c ∷ s)) [
    | none ↦ raise invalid_argument
    | some d ↦ pure (some (server.now + d))
  ]

  -- InfoCommand
  unfoldable pub run_info : Session → Sys C Output
  run_info s = do u ← account s; pure (about env u)

  -- pubkeyListCommand
  unfoldable pub run_pubkey_list : Session → Sys C Output
  run_pubkey_list s = do u ← account s; pure (map env.marshal_key u.public_keys)

  -- pubkeyAddCommand
  unfoldable pub run_pubkey_add : Session → List Text → Sys C Output
  run_pubkey_add s key = do
    u ← account s
    pk ← on_db (parse_authorized_key env (join_words key))
    silent (on_db (Users.add_public_key env u.user.username pk))

  -- pubkeyRemoveCommand
  unfoldable pub run_pubkey_remove : Session → List Text → Sys C Output
  run_pubkey_remove s key = do
    u ← account s
    pk ← on_db (parse_authorized_key env (join_words key))
    silent (on_db (Users.remove_public_key env u.user.username pk))

  -- SetUsernameCommand
  unfoldable pub run_set_username : Session → Text → Sys C Output
  run_set_username s username = do
    u ← account s
    silent (on_db (Users.set_username env u.user.username username))

  abbrev token_lines : List AccessToken → Output
  token_lines [] = str "No tokens found" ∷ []
  token_lines (t ∷ ts) = map (λ x. x.name) (t ∷ ts)

  -- listCmd of TokenCommand
  unfoldable pub run_token_list : Session → Sys C Output
  run_token_list s = do
    u ← signed_in s.user
    tokens ← on_db (Tokens.list_access_tokens u)
    pure (token_lines tokens)

  -- createCmd of TokenCommand
  unfoldable pub run_token_create : Session → List Text → Text → Sys C Output
  run_token_create s name expires_in = do
    u ← signed_in s.user
    expires_at ← expiry expires_in
    token ← on_db (Tokens.create_access_token env server.new_token u (join_words name) expires_at)
    pure (token ∷ [])

  -- no token has a negative id
  abbrev delete_parsed : ProtoUser → Option ℤ → Sys C Output
  delete_parsed u none = raise invalid_argument
  delete_parsed u (some (pos id)) = silent (on_db (Tokens.delete_access_token u id))
  delete_parsed u (some (negsuc n)) = raise token_not_found

  -- deleteCmd of TokenCommand
  unfoldable pub run_token_delete : Session → Text → Sys C Output
  unfolding parse_int
  run_token_delete s id = do u ← signed_in s.user; delete_parsed u (parse_int id)

  -- the commands on the session's own account have no check before them
  unfoldable pub run_account : Session → AccountCommand → Sys C Output
  unfolding run_info run_pubkey_list run_pubkey_add run_pubkey_remove run_set_username
      run_token_list run_token_create run_token_delete
  run_account s info = run_info s
  run_account s pubkey_list = run_pubkey_list s
  run_account s (pubkey_add key) = run_pubkey_add s key
  run_account s (pubkey_remove key) = run_pubkey_remove s key
  run_account s (set_username username) = run_set_username s username
  run_account s token_list = run_token_list s
  run_account s (token_create name expires_in) = run_token_create s name expires_in
  run_account s (token_delete id) = run_token_delete s id

  -- the loop of listCommand
  unfoldable pub visible : Text → Bool → List Repo → Sys C Output
  visible pk all [] = pure []
  visible pk all (r ∷ rs) = do
    auth ← level_by_public_key env lru m server.keys_equal server.admin_keys r.name pk
    rest ← visible pk all rs
    pure (if ltbℤ auth read_only_access || (r.hidden && not all) then rest else r.name ∷ rest)

  -- listCommand
  unfoldable pub list_repos : Session → Bool → Sys C Output
  unfolding visible
  list_repos s all = do rs ← repositories env lru m; visible s.key all rs
