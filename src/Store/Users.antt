-- ===== src/Store/Users.antt =====
-- pkg/store/database/user.go
use soft_serve.Base.{
  ℕ, ◌+◌, Bool, not, ◌&&◌, ◌||◌, Option, none, some, List, [], ◌∷◌, ◌++◌, Text, text_eq, ◌==◌, any,
  contains, select, update,
}
use soft_serve.Env.{Env}
use soft_serve.Names.{to_lower, validate_username}
use soft_serve.Store.Schema.{User, PublicKey, user_ids, delete_users}
use soft_serve.Store.Exec.{
  Exec, ◌>>=◌, ◌>>◌, pure, raise, gets, get_one, exec, checked, constraint, invalid_key, valid,
}

abbrev pub named : Text → User → Bool
named username u = text_eq u.username username

-- INSERT INTO public_keys: the key is unique, and its user exists
unfoldable pub insert_public_key : ℕ → Text → Exec (Unit {0})
insert_public_key user_id ak db =
    checked
      (any (λ k. text_eq k.public_key ak) db.public_keys || not (contains (user_ids db) user_id))
      constraint tt
      (λ d. record d {
        public_keys =
            d.public_keys ++ record { id = d.next_key; user_id = user_id; public_key = ak } ∷ [];
        next_key = d.next_key + 1;
      })
      db

-- INSERT INTO users: the username is unique; returns the new id
unfoldable pub insert_user : Text → Bool → Exec ℕ
insert_user username admin db =
    checked (any (named username) db.users) constraint db.next_user
      (λ d. record d {
        users =
            d.users
            ++ record { id = d.next_user; username = username; admin = admin; password = none }
              ∷ [];
        next_user = d.next_user + 1;
      })
      db

-- UPDATE users ... WHERE username = ?, for columns without a constraint
unfoldable pub update_user : Text → (User → User) → Exec (Unit {0})
update_user username f = exec (λ db. record db { users = update (named username) f db.users })

-- UPDATE users SET username = new WHERE username = old: no other row may have the new name
unfoldable pub update_username : Text → Text → Exec (Unit {0})
update_username old new db =
    checked (not (text_eq old new) && any (named old) db.users && any (named new) db.users)
      constraint tt
      (λ d. record d { users = update (named old) (λ u. record u { username = new }) d.users }) db

module _ (env : Env) where
  -- `username = strings.ToLower(username)` and the check of the result
  unfoldable pub lower_valid : Text → Exec Text
  lower_valid username = do
    valid (validate_username env (to_lower env username))
    pure (to_lower env username)

  -- AddPublicKeyByUsername
  unfoldable pub add_public_key_by_username : Text → Text → Exec (Unit {0})
  add_public_key_by_username username pk = do
    name ← lower_valid username
    u ← get_one (λ db. db.users) (named name)
    insert_public_key u.id (env.marshal_key pk)

  -- the loop of CreateUser
  unfoldable pub insert_public_keys : ℕ → List Text → Exec (Unit {0})
  insert_public_keys user_id [] = pure tt
  insert_public_keys user_id (pk ∷ pks) = do
    insert_public_key user_id (env.marshal_key pk)
    insert_public_keys user_id pks

  -- CreateUser
  unfoldable pub create_user : Text → Bool → List Text → Exec (Unit {0})
  create_user username is_admin pks = do
    name ← lower_valid username
    user_id ← insert_user name is_admin
    insert_public_keys user_id pks

  -- DeleteUserByUsername
  unfoldable pub delete_user_by_username : Text → Exec (Unit {0})
  delete_user_by_username username = do
    name ← lower_valid username
    exec (delete_users (named name))

  -- GetUserByID
  unfoldable pub get_user_by_id : ℕ → Exec User
  get_user_by_id id = get_one (λ db. db.users) (λ u. u.id == id)

  -- FindUserByPublicKey: the join of users and public_keys
  unfoldable pub find_user_by_public_key : Text → Exec User
  find_user_by_public_key pk = do
    k ← get_one (λ db. db.public_keys) (λ k. text_eq k.public_key (env.marshal_key pk))
    get_one (λ db. db.users) (λ u. u.id == k.user_id)

  -- FindUserByUsername
  unfoldable pub find_user_by_username : Text → Exec User
  find_user_by_username username = do
    name ← lower_valid username
    get_one (λ db. db.users) (named name)

  -- FindUserByAccessToken: the join of users and access_tokens
  unfoldable pub find_user_by_access_token : Text → Exec User
  find_user_by_access_token token = do
    t ← get_one (λ db. db.access_tokens) (λ t. text_eq t.token token)
    get_one (λ db. db.users) (λ u. u.id == t.user_id)

  -- GetAllUsers
  unfoldable pub get_all_users : Exec (List User)
  get_all_users = gets (λ db. db.users)

  abbrev parsed : Option Text → Exec Text
  parsed none = raise invalid_key
  parsed (some pk) = pure pk

  -- the loop that parses the stored keys
  unfoldable pub parse_keys : List PublicKey → Exec (List Text)
  parse_keys [] = pure []
  parse_keys (k ∷ ks) = do
    pk ← parsed (env.parse_key k.public_key)
    pks ← parse_keys ks
    pure (pk ∷ pks)

  -- ListPublicKeysByUserID
  unfoldable pub list_public_keys_by_user_id : ℕ → Exec (List Text)
  unfolding parse_keys
  list_public_keys_by_user_id id = do
    ks ← gets (λ db. select (λ k. k.user_id == id) db.public_keys)
    parse_keys ks

  -- ListPublicKeysByUsername: the keys of the user of that name
  unfoldable pub list_public_keys_by_username : Text → Exec (List Text)
  list_public_keys_by_username username = do
    name ← lower_valid username
    ks ←
        gets
          (λ db. select (λ k. any (λ u. u.id == k.user_id && named name u) db.users) db.public_keys)
    parse_keys ks

  -- RemovePublicKeyByUsername
  unfoldable pub remove_public_key_by_username : Text → Text → Exec (Unit {0})
  remove_public_key_by_username username pk = do
    name ← lower_valid username
    exec (λ db. record db {
      public_keys =
          select
            (λ k. not (
              any (λ u. named name u && u.id == k.user_id) db.users
              && text_eq k.public_key (env.marshal_key pk)))
            db.public_keys;
    })

  -- SetAdminByUsername
  unfoldable pub set_admin_by_username : Text → Bool → Exec (Unit {0})
  set_admin_by_username username is_admin = do
    name ← lower_valid username
    update_user name (λ u. record u { admin = is_admin })

  -- SetUsernameByUsername
  unfoldable pub set_username_by_username : Text → Text → Exec (Unit {0})
  set_username_by_username username new_username = do
    name ← lower_valid username
    new_name ← lower_valid new_username
    update_username name new_name

  -- SetUserPassword
  unfoldable pub set_user_password : ℕ → Text → Exec (Unit {0})
  set_user_password user_id password = exec (λ db. record db {
    users = update (λ u. u.id == user_id) (λ u. record u { password = some password }) db.users;
  })

  -- SetUserPasswordByUsername
  unfoldable pub set_user_password_by_username : Text → Text → Exec (Unit {0})
  set_user_password_by_username username password = do
    name ← lower_valid username
    update_user name (λ u. record u { password = some password })
