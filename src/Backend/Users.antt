-- ===== src/Backend/Users.antt =====
-- pkg/backend/user.go, but for the access levels (Access) and DeleteUser, which runs transactions
-- inside a transaction.
pub mod Laws
use soft_serve.Base.{ℕ, Bool, false, Option, none, some, List, map, Text, ltb, if◌then◌else◌}
use soft_serve.Env.{Env}
use soft_serve.Names.{sanitize, to_lower, validate_username}
use soft_serve.Store.Schema.{User, AccessToken}
use soft_serve.Store.Users
use soft_serve.Store.Users.{
  get_user_by_id, find_user_by_public_key, find_user_by_username, find_user_by_access_token,
  get_all_users, list_public_keys_by_user_id, list_public_keys_by_username,
}
use soft_serve.Store.Tokens.{get_access_token_by_token}
use soft_serve.Store.Exec.{
  Error, record_not_found, user_not_found, token_expired, invalid_argument, Exec, ◌>>=◌, ◌>>◌, pure,
  raise, gets, valid, on_error, wrap_error, transaction,
}

-- the type `user`, behind the interface proto.User
pub record ProtoUser : Type 0 where
  pub user : User
  pub public_keys : List Text

-- the error of a lookup, as its caller sees it
abbrev pub lookup_error : Error → Error
lookup_error e = elim (wrap_error e) [ record_not_found ↦ user_not_found | other ↦ other ]

module _ (env : Env) where
  -- the lookups' common part: the user that was found, with its keys
  unfoldable pub with_keys : Exec User → Exec ProtoUser
  with_keys find_user = on_error lookup_error (
      transaction (do
        m ← find_user
        pks ← list_public_keys_by_user_id env m.id
        pure (record { user = m; public_keys = pks })))

  -- Backend.User
  unfoldable pub user : Text → Exec ProtoUser
  unfolding with_keys
  user username = do
    valid (validate_username env (to_lower env username))
    with_keys (find_user_by_username env (to_lower env username))

  -- Backend.UserByID
  unfoldable pub user_by_id : ℕ → Exec ProtoUser
  unfolding with_keys
  user_by_id id = with_keys (get_user_by_id env id)

  -- Backend.UserByPublicKey
  unfoldable pub user_by_public_key : Text → Exec ProtoUser
  unfolding with_keys
  user_by_public_key pk = with_keys (on_error wrap_error (find_user_by_public_key env pk))

  -- the token has an expiry time before now
  abbrev expired : ℕ → Option ℕ → Bool
  expired now none = false
  expired now (some at) = ltb at now

  unfoldable pub check_expiry : ℕ → AccessToken → Exec (Unit {0})
  check_expiry now t = if expired now t.expires_at then raise token_expired else pure tt

  -- Backend.UserByAccessToken, at the time `now`
  unfoldable pub user_by_access_token : ℕ → Text → Exec ProtoUser
  unfolding with_keys check_expiry
  user_by_access_token now token = with_keys (do
    t ← on_error wrap_error (get_access_token_by_token (env.hash_token token))
    check_expiry now t
    on_error wrap_error (find_user_by_access_token env (env.hash_token token)))

  -- Backend.Users
  unfoldable pub users : Exec (List Text)
  users =
      on_error wrap_error (transaction (do ms ← get_all_users env; pure (map (λ m. m.username) ms)))

  -- Backend.AddPublicKey
  unfoldable pub add_public_key : Text → Text → Exec (Unit {0})
  add_public_key username pk = do
    valid (validate_username env (to_lower env username))
    on_error wrap_error
        (transaction (Users.add_public_key_by_username env (to_lower env username) pk))

  -- Backend.CreateUser
  unfoldable pub create_user : Text → Bool → List Text → Exec ProtoUser
  unfolding user
  create_user username admin pks = do
    let name = to_lower env (sanitize env username)
    valid (validate_username env name)
    on_error wrap_error (transaction (Users.create_user env name admin pks))
    user name

  -- Backend.RemovePublicKey
  unfoldable pub remove_public_key : Text → Text → Exec (Unit {0})
  remove_public_key username pk =
      on_error wrap_error (transaction (Users.remove_public_key_by_username env username pk))

  -- Backend.ListPublicKeys
  unfoldable pub list_public_keys : Text → Exec (List Text)
  list_public_keys username = do
    valid (validate_username env (to_lower env username))
    on_error wrap_error (transaction (list_public_keys_by_username env (to_lower env username)))

  -- Backend.SetUsername
  unfoldable pub set_username : Text → Text → Exec (Unit {0})
  set_username username new_username = do
    valid (validate_username env (to_lower env username))
    on_error wrap_error
        (transaction (Users.set_username_by_username env (to_lower env username) new_username))

  -- Backend.SetAdmin
  unfoldable pub set_admin : Text → Bool → Exec (Unit {0})
  set_admin username admin = do
    valid (validate_username env (to_lower env username))
    on_error wrap_error
        (transaction (Users.set_admin_by_username env (to_lower env username) admin))

  abbrev hashed : Option Text → Exec Text
  hashed none = raise invalid_argument
  hashed (some password) = pure password

  -- Backend.SetPassword; `hash_password` is HashPassword, which bcrypt may refuse
  unfoldable pub set_password : (Text → Option Text) → Text → Text → Exec (Unit {0})
  set_password hash_password username raw_password = do
    valid (validate_username env (to_lower env username))
    password ← hashed (hash_password raw_password)
    on_error wrap_error
        (transaction (Users.set_user_password_by_username env (to_lower env username) password))
