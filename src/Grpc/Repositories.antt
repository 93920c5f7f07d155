-- ===== src/Grpc/Repositories.antt =====
-- pkg/grpc/server.go: the methods on repositories. The message of a repository is its row, without
-- the times; ImportRepository and the methods that read git are left out.

pub mod Updated
use soft_serve.Base.{ℕ, Bool, Option, List, [], ◌∷◌, Text, select, ◌==◌}
use soft_serve.Env.{Env}
use soft_serve.Store.Schema.{Repo}
use soft_serve.System.{on_db}
use soft_serve.System.Cache.{Lru}
use soft_serve.Backend.Users
use soft_serve.Backend.Users.{ProtoUser}
use soft_serve.Backend.Lifecycle
use soft_serve.Backend.Lifecycle.{Machine, Options}
use soft_serve.Grpc.{Rpc, not_found, internal, ◌>>=◌, ◌>>◌, pure, calling, required, given}

-- CreateRepositoryRequest
pub record CreateRequest : Type 0 where
  pub name : Text
  pub username : Text
  pub opts : Options

-- UpdateRepositoryRequest
pub record UpdateRequest : Type 0 where
  pub name : Text
  pub description : Option Text
  pub is_private : Option Bool
  pub is_hidden : Option Bool
  pub project_name : Option Text

module _ {C : Type 0} (env : Env) (lru : Lru C) (m : Machine) where
  -- the user that a request names, or 0
  abbrev owner : Text → Rpc C ℕ
  owner [] = pure 0
  owner (c ∷ s) = do u ← calling not_found (on_db (Users.user env (c ∷ s))); pure u.user.id

  -- CreateRepository
  unfoldable pub create_repository : CreateRequest → Rpc C Repo
  unfolding calling required
  create_repository req = do
    required req.name
    user_id ← owner req.username
    calling internal (Lifecycle.create_repository env lru m req.name user_id req.opts)

  -- DeleteRepository
  unfoldable pub delete_repository : Text → Rpc C (Unit {0})
  unfolding calling required
  delete_repository name = do
    required name
    calling internal (Lifecycle.delete_repository env lru m name)

  -- GetRepository
  unfoldable pub get_repository : Text → Rpc C Repo
  unfolding calling required
  get_repository name = do required name; calling not_found (Lifecycle.repository env lru m name)

  -- ListRepositories
  unfoldable pub list_repositories : Rpc C (List Repo)
  unfolding calling
  list_repositories = calling internal (Lifecycle.repositories env lru m)

  -- RenameRepository
  unfoldable pub rename_repository : Text → Text → Rpc C Repo
  unfolding calling required
  rename_repository old_name new_name = do
    required old_name
    required new_name
    calling internal (Lifecycle.rename_repository env lru m old_name new_name)
    calling internal (Lifecycle.repository env lru m new_name)

  -- UpdateRepository: each field of the request that is set is a call of its own
  unfoldable pub update_repository : UpdateRequest → Rpc C Repo
  update_repository req = do
    required req.name
    given req.description λ v. calling internal (Lifecycle.set_description env lru m req.name v)
    given req.is_private λ v. calling internal (Lifecycle.set_private env lru m req.name v)
    given req.is_hidden λ v. calling internal (Lifecycle.set_hidden env lru m req.name v)
    given req.project_name λ v. calling internal (Lifecycle.set_project_name env lru m req.name v)
    calling internal (Lifecycle.repository env lru m req.name)

  -- ListUserRepositories
  unfoldable pub list_user_repositories : Text → Rpc C (List Repo)
  unfolding calling required
  list_user_repositories username = do
    required username
    u ← calling not_found (on_db (Users.user env username))
    all ← calling internal (Lifecycle.repositories env lru m)
    pure (select (λ r. r.user_id == u.user.id) all)
