-- ===== src/Ssh/Commands/Admin.antt =====
-- pkg/ssh/cmd: the commands on users and settings.
use soft_serve.Base.{Bool, false, Option, none, some, List, [], Text, str, text_eq, if◌then◌else◌}
use soft_serve.Base.Int.{ltbℤ}
use soft_serve.Access.{no_access, string, parse_access_level}
use soft_serve.Env.{Env}
use soft_serve.Store.Exec.{invalid_argument}
use soft_serve.System.{Sys, ◌>>=◌, ◌>>◌, pure, raise, on_db}
use soft_serve.System.Cache.{Lru}
use soft_serve.Backend.Users
use soft_serve.Backend.Users.{ProtoUser, user_by_public_key}
use soft_serve.Backend.Settings
use soft_serve.Backend.Lifecycle.{Machine}
use soft_serve.Ssh.Session.{Server, Session, check_if_admin}
use soft_serve.Ssh.Commands.Parse.{parse_bool, join_words, show_bool, sort_texts}
use soft_serve.Ssh.Commands.{
  Output, AdminCommand, user_create, user_add_pubkey, user_remove_pubkey, user_set_admin,
  user_set_username, user_info, user_list, allow_keyless, anon_access, first_argument, silent,
  prints, parse_authorized_key, keys_of, about,
}

module _ {C : Type 0} (env : Env) (lru : Lru C) (m : Machine) (server : Server) where
  -- the commands below `settings`, after their check
  unfoldable pub run_allow_keyless : Option Text → Sys C Output
  unfolding parse_bool
  run_allow_keyless none = prints show_bool Settings.allow_keyless
  run_allow_keyless (some v) =
      silent
        (on_db (Settings.set_allow_keyless (elim (parse_bool v) [ none ↦ false | some b ↦ b ])))

  unfoldable pub run_anon_access : Option Text → Sys C Output
  run_anon_access none = prints string Settings.anon_access
  run_anon_access (some v) =
      if ltbℤ (parse_access_level v) no_access
      then raise invalid_argument
      else silent (on_db (Settings.set_anon_access_level (parse_access_level v)))

  -- userCreateCommand after its check
  unfoldable pub run_user_create : Text → Bool → Text → Sys C Output
  run_user_create username admin key = do
    pks ← on_db (keys_of env key)
    _ ← on_db (Users.create_user env username admin pks)
    pure []

  -- userAddPubkeyCommand after its check
  unfoldable pub run_user_add_pubkey : Text → List Text → Sys C Output
  run_user_add_pubkey username key = do
    pk ← on_db (parse_authorized_key env (join_words key))
    silent (on_db (Users.add_public_key env username pk))

  -- userRemovePubkeyCommand after its check
  unfoldable pub run_user_remove_pubkey : Text → List Text → Sys C Output
  run_user_remove_pubkey username key = do
    pk ← on_db (parse_authorized_key env (join_words key))
    silent (on_db (Users.remove_public_key env username pk))

  -- userSetAdminCommand after its check
  unfoldable pub run_user_set_admin : Text → Text → Sys C Output
  run_user_set_admin username value =
      silent (on_db (Users.set_admin env username (text_eq value (str "true"))))

  -- userSetUsernameCommand after its check
  unfoldable pub run_user_set_username : Text → Text → Sys C Output
  run_user_set_username username value = silent (on_db (Users.set_username env username value))

  -- userInfoCommand after its check
  unfoldable pub run_user_info : Text → Sys C Output
  run_user_info username = do u ← on_db (Users.user env username); pure (about env u)

  -- userListCommand after its check
  unfoldable pub run_user_list : Sys C Output
  unfolding sort_texts
  run_user_list = do names ← on_db (Users.users env); pure (sort_texts names)

  -- the commands below `user` and `settings`, after their check
  unfoldable pub run_checked : AdminCommand → Sys C Output
  unfolding run_user_create run_user_add_pubkey run_user_remove_pubkey run_user_set_admin
      run_user_set_username run_user_info run_user_list run_allow_keyless run_anon_access
  run_checked (user_create username admin key) = run_user_create username admin key
  run_checked (user_add_pubkey username key) = run_user_add_pubkey username key
  run_checked (user_remove_pubkey username key) = run_user_remove_pubkey username key
  run_checked (user_set_admin username value) = run_user_set_admin username value
  run_checked (user_set_username username value) = run_user_set_username username value
  run_checked (user_info username) = run_user_info username
  run_checked user_list = run_user_list
  run_checked (allow_keyless value) = run_allow_keyless value
  run_checked (anon_access value) = run_anon_access value

  -- UserCommand and SettingsCommand: every command has the same check
  unfoldable pub run_admin : Session → AdminCommand → Sys C Output
  run_admin s c = check_if_admin env lru m server s (first_argument c) >> run_checked c
