-- ===== src/Grpc/Access.antt =====
-- pkg/grpc/server.go: the methods on collaborators, access tokens and settings.
pub mod Settled
use soft_serve.Base.{ℕ, Bool, Option, none, List, [], ◌∷◌, map, Text, if◌then◌else◌}
use soft_serve.Access.{AccessLevel}
use soft_serve.Env.{Env}
use soft_serve.Store.Schema.{AccessToken}
use soft_serve.Store.Exec.{Result, ok, err}
use soft_serve.System.{on_db, attempt}
use soft_serve.System.Cache.{Lru}
use soft_serve.Backend.Users.{user}
use soft_serve.Backend.Collabs
use soft_serve.Backend.Collabs.{Hooks}
use soft_serve.Backend.Tokens
use soft_serve.Backend.Settings
use soft_serve.Backend.Lifecycle.{Machine}
use soft_serve.Backend.Hosted
use soft_serve.Grpc.{
  Rpc, not_found, internal, ◌>>=◌, ◌>>◌, pure, calling, required, given, ProtoLevel, to_proto_level,
  to_backend_level,
}

-- the message Collaborator
pub record Collaborator : Type 0 where
  pub username : Text
  pub access_level : ProtoLevel

-- the message AccessToken, without the time of its creation
pub record TokenMessage : Type 0 where
  pub id : ℕ
  pub name : Text
  pub token : Text
  pub expires_at : Option ℕ

-- the message ServerSettings
pub record ServerSettings : Type 0 where
  pub allow_keyless : Bool
  pub anon_access : ProtoLevel

-- UpdateSettingsRequest
pub record UpdateSettingsRequest : Type 0 where
  pub allow_keyless : Option Bool
  pub anon_access : Option ProtoLevel

abbrev with_level : Text → Result (AccessLevel × Bool) → List Collaborator → List Collaborator
with_level username (err e) cs = cs
with_level username (ok (level, is_collab)) cs =
    if is_collab
    then record { username = username; access_level = to_proto_level level } ∷ cs
    else cs

-- a token as ListAccessTokens shows it, without its value
abbrev listed : AccessToken → TokenMessage
listed t = record { id = t.id; name = t.name; token = []; expires_at = t.expires_at }

module _ {C : Type 0} (env : Env) (lru : Lru C) (m : Machine) (hooks : Hooks) where
  -- AddCollaborator; the context of a request holds no user
  unfoldable pub add_collaborator : Text → Text → ProtoLevel → Rpc C (Unit {0})
  unfolding calling required to_backend_level
  add_collaborator repo_name username level = do
    required repo_name
    required username
    calling internal
        (Hosted.add_collaborator env lru m hooks none repo_name username (to_backend_level level))

  -- RemoveCollaborator
  unfoldable pub remove_collaborator : Text → Text → Rpc C (Unit {0})
  unfolding calling required
  remove_collaborator repo_name username = do
    required repo_name
    required username
    calling internal (Hosted.remove_collaborator env lru m hooks repo_name username)

module _ {C : Type 0} (env : Env) where
  -- the loop of ListCollaborators
  unfoldable pub list_levels : Text → List Text → Rpc C (List Collaborator)
  unfolding calling to_proto_level
  list_levels repo_name [] = pure []
  list_levels repo_name (username ∷ usernames) = do
    level ← calling internal (attempt (on_db (Collabs.is_collaborator env repo_name username)))
    cs ← list_levels repo_name usernames
    pure (with_level username level cs)

  -- ListCollaborators
  unfoldable pub list_collaborators : Text → Rpc C (List Collaborator)
  unfolding calling required list_levels
  list_collaborators repo_name = do
    required repo_name
    usernames ← calling internal (on_db (Collabs.collaborators env repo_name))
    list_levels repo_name usernames

  -- CreateAccessToken; `token` is the random text of the new token, whose id is not known
  unfoldable pub create_access_token : Text → Text → Text → Option ℕ → Rpc C TokenMessage
  unfolding calling required
  create_access_token token username name expires_at = do
    required username
    required name
    u ← calling not_found (on_db (user env username))
    t ← calling internal (on_db (Tokens.create_access_token env token u name expires_at))
    pure (record { id = 0; name = name; token = t; expires_at = expires_at })

  -- DeleteAccessToken
  unfoldable pub delete_access_token : Text → ℕ → Rpc C (Unit {0})
  unfolding calling required
  delete_access_token username token_id = do
    required username
    u ← calling not_found (on_db (user env username))
    calling internal (on_db (Tokens.delete_access_token u token_id))

  -- ListAccessTokens
  unfoldable pub list_access_tokens : Text → Rpc C (List TokenMessage)
  unfolding calling required
  list_access_tokens username = do
    required username
    u ← calling not_found (on_db (user env username))
    tokens ← calling internal (on_db (Tokens.list_access_tokens u))
    pure (map listed tokens)

module _ {C : Type 0} where
  -- GetSettings
  unfoldable pub get_settings : Rpc C ServerSettings
  unfolding calling to_proto_level
  get_settings = do
    allow ← calling internal (on_db Settings.allow_keyless)
    anon ← calling internal (on_db Settings.anon_access)
    pure (record { allow_keyless = allow; anon_access = to_proto_level anon })

  -- UpdateSettings
  unfoldable pub update_settings : UpdateSettingsRequest → Rpc C ServerSettings
  unfolding calling given to_backend_level get_settings
  update_settings req = do
    given req.allow_keyless λ v. calling internal (on_db (Settings.set_allow_keyless v))
    given req.anon_access
        λ v. calling internal (on_db (Settings.set_anon_access_level (to_backend_level v)))
    get_settings
