-- ===== src/Grpc/Users.antt =====
-- pkg/grpc/server.go: the methods on users and their public keys, but for DeleteUser.
use soft_serve.Base.{ℕ, Bool, Option, none, some, List, [], ◌∷◌, ◌++◌, map, Text}
use soft_serve.Env.{Env}
use soft_serve.Store.Exec.{Result, ok, err}
use soft_serve.System.{on_db, attempt}
use soft_serve.Backend.Users as Backend
use soft_serve.Backend.Users.{ProtoUser}
use soft_serve.Grpc.{
  Rpc, invalid_argument, not_found, internal, ◌>>=◌, ◌>>◌, pure, fail, calling, required, given,
}

-- the message User
pub record User : Type 0 where
  pub id : ℕ
  pub username : Text
  pub is_admin : Bool
  pub public_keys : List Text

-- CreateUserRequest
pub record CreateUserRequest : Type 0 where
  pub username : Text
  pub admin : Bool
  pub public_keys : List Text
  pub password : Option Text

-- UpdateUserRequest
pub record UpdateUserRequest : Type 0 where
  pub username : Text
  pub new_username : Option Text
  pub admin : Option Bool
  pub password : Option Text

module _ (env : Env) where
  -- ssh.MarshalAuthorizedKey, which ends with a newline
  abbrev pub authorized_key : Text → Text
  authorized_key pk = env.marshal_key pk ++ 10 ∷ []

  -- toProtoUser
  unfoldable pub to_proto_user : ProtoUser → User
  to_proto_user u = record {
    id = u.user.id;
    username = u.user.username;
    is_admin = u.user.admin;
    public_keys = map authorized_key u.public_keys;
  }

  abbrev pub kept : Result ProtoUser → List User → List User
  kept (ok u) us = to_proto_user u ∷ us
  kept (err e) us = us

module _ {C : Type 0} (env : Env) (hash_password : Text → Option Text) where
  -- ssh.ParseAuthorizedKey
  unfoldable pub parse_authorized_key : Text → Rpc C Text
  parse_authorized_key s = elim (env.parse_key s) [
    | none ↦ fail invalid_argument
    | some pk ↦ pure pk
  ]

  -- the loop of CreateUser over the keys
  unfoldable pub parse_authorized_keys : List Text → Rpc C (List Text)
  unfolding parse_authorized_key
  parse_authorized_keys [] = pure []
  parse_authorized_keys (s ∷ ss) = do
    pk ← parse_authorized_key s
    pks ← parse_authorized_keys ss
    pure (pk ∷ pks)

  -- a password that is given and not empty
  abbrev set_given_password : Text → Option Text → Rpc C (Unit {0})
  set_given_password username none = pure tt
  set_given_password username (some []) = pure tt
  set_given_password username (some (c ∷ s)) =
      calling internal (on_db (Backend.set_password env hash_password username (c ∷ s)))

  -- CreateUser
  unfoldable pub create_user : CreateUserRequest → Rpc C User
  unfolding calling required parse_authorized_keys to_proto_user
  create_user req = do
    required req.username
    pks ← parse_authorized_keys req.public_keys
    u ← calling internal (on_db (Backend.create_user env req.username req.admin pks))
    set_given_password req.username req.password
    pure (to_proto_user env u)

  -- GetUser
  unfoldable pub get_user : Text → Rpc C User
  unfolding calling required to_proto_user
  get_user username = do
    required username
    u ← calling not_found (on_db (Backend.user env username))
    pure (to_proto_user env u)

  -- the loop of ListUsers: a user that is not found is left out
  unfoldable pub list_named : List Text → Rpc C (List User)
  unfolding calling to_proto_user
  list_named [] = pure []
  list_named (name ∷ names) = do
    u ← calling internal (attempt (on_db (Backend.user env name)))
    us ← list_named names
    pure (kept env u us)

  -- ListUsers
  unfoldable pub list_users : Rpc C (List User)
  unfolding calling list_named
  list_users = do names ← calling internal (on_db (Backend.users env)); list_named names

  -- a new name that is given and not empty; the name that the user has afterwards
  abbrev rename_given : Text → Option Text → Rpc C Text
  rename_given username none = pure username
  rename_given username (some []) = pure username
  rename_given username (some (c ∷ s)) = do
    calling internal (on_db (Backend.set_username env username (c ∷ s)))
    pure (c ∷ s)

  -- UpdateUser
  unfoldable pub update_user : UpdateUserRequest → Rpc C User
  unfolding calling required given to_proto_user
  update_user req = do
    required req.username
    username ← rename_given req.username req.new_username
    given req.admin λ v. calling internal (on_db (Backend.set_admin env username v))
    set_given_password username req.password
    u ← calling internal (on_db (Backend.user env username))
    pure (to_proto_user env u)

  -- AddPublicKey
  unfoldable pub add_public_key : Text → Text → Rpc C (Unit {0})
  unfolding calling required parse_authorized_key
  add_public_key username public_key = do
    required username
    required public_key
    pk ← parse_authorized_key public_key
    calling internal (on_db (Backend.add_public_key env username pk))

  -- RemovePublicKey
  unfoldable pub remove_public_key : Text → Text → Rpc C (Unit {0})
  unfolding calling required parse_authorized_key
  remove_public_key username public_key = do
    required username
    required public_key
    pk ← parse_authorized_key public_key
    calling internal (on_db (Backend.remove_public_key env username pk))

  -- ListPublicKeys
  unfoldable pub list_public_keys : Text → Rpc C (List Text)
  unfolding calling required
  list_public_keys username = do
    required username
    pks ← calling internal (on_db (Backend.list_public_keys env username))
    pure (map (authorized_key env) pks)
