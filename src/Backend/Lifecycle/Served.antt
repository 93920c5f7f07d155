-- ===== src/Backend/Lifecycle/Served.antt =====
-- Sequences of the operations of pkg/backend/repo.go on repositories.
use soft_serve.Base.{ℕ, Bool, List, [], ◌∷◌, Text, All}
use soft_serve.Env.{Env}
use soft_serve.System.{World, Sys}
use soft_serve.System.Cache.{Lru, LruLaws}
use soft_serve.Backend.Lifecycle.{
  Machine, Options, repository, create_repository, delete_repository, rename_repository, set_hidden,
  set_description, set_private, set_project_name,
}
use soft_serve.Backend.Lifecycle.Coherent.{IsSteady, IsCoherent}
use soft_serve.Backend.Lifecycle.Cached.{repository-IsCoherent}
use soft_serve.Backend.Lifecycle.Kept.{
  create_repository-IsCoherent, delete_repository-IsCoherent, rename_repository-IsCoherent,
}
use soft_serve.Backend.Lifecycle.Kept.Setters.{
  set_hidden-IsCoherent, set_description-IsCoherent, set_private-IsCoherent,
  set_project_name-IsCoherent,
}

-- A call of the backend
pub data RepoCall : Type 0 where
  look_up delete : (name : Text) → RepoCall
  create : (name : Text) (user_id : ℕ) (opts : Options) → RepoCall
  rename : (old new : Text) → RepoCall
  hide publish : (name : Text) (value : Bool) → RepoCall
  describe entitle : (name text : Text) → RepoCall

abbrev pub names_of : RepoCall → List Text
names_of (look_up name) = name ∷ []
names_of (delete name) = name ∷ []
names_of (create name user_id opts) = name ∷ []
names_of (rename old new) = old ∷ new ∷ []
names_of (hide name value) = name ∷ []
names_of (publish name value) = name ∷ []
names_of (describe name text) = name ∷ []
names_of (entitle name text) = name ∷ []

module _ {C : Type 0} (env : Env) (lru : Lru C) (m : Machine) where
  abbrev after : {A : Type 0} → Sys C A → World C → World C
  after op w = (op w).1

  -- the state after a call, whether it returns a result or an error
  unfoldable pub call : RepoCall → World C → World C
  call (look_up name) = after (repository env lru m name)
  call (delete name) = after (delete_repository env lru m name)
  call (create name user_id opts) = after (create_repository env lru m name user_id opts)
  call (rename old new) = after (rename_repository env lru m old new)
  call (hide name value) = after (set_hidden env lru m name value)
  call (publish name value) = after (set_private env lru m name value)
  call (describe name text) = after (set_description env lru m name text)
  call (entitle name text) = after (set_project_name env lru m name text)

  unfoldable pub serve : List RepoCall → World C → World C
  unfolding call
  serve [] w = w
  serve (x ∷ xs) w = serve xs (call x w)

module _ {C : Type 0} (env : Env) (lru : Lru C) (laws : LruLaws lru) (m : Machine) where
  call-IsCoherent :
      (x : RepoCall)
      → All (IsSteady env) (names_of x)
      → (w : World C) → IsCoherent env lru w.cache w.db
      → IsCoherent env lru (call env lru m x w).cache (call env lru m x w).db
  unfolding call
  call-IsCoherent (look_up name) (s, _) = (repository-IsCoherent env lru laws m name s).at
  call-IsCoherent (delete name) (s, _) = (delete_repository-IsCoherent env lru laws m name s).at
  call-IsCoherent (create name user_id opts) (s, _) =
      (create_repository-IsCoherent env lru laws m name user_id opts s).at
  call-IsCoherent (rename old new) (s, t) =
      (rename_repository-IsCoherent env lru laws m old new s t.0).at
  call-IsCoherent (hide name value) (s, _) = (set_hidden-IsCoherent env lru laws m name value s).at
  call-IsCoherent (publish name value) (s, _) =
      (set_private-IsCoherent env lru laws m name value s).at
  call-IsCoherent (describe name text) (s, _) =
      (set_description-IsCoherent env lru laws m name text s).at
  call-IsCoherent (entitle name text) (s, _) =
      (set_project_name-IsCoherent env lru laws m name text s).at

  -- However the calls follow each other, and whether they return a result or an error, the tables stay
  -- consistent and every repository that the cache holds is the row of that name, if they were so at
  -- the start and sanitizing the calls' names twice is sanitizing them once.
  pub serve-IsCoherent :
      (xs : List RepoCall) (w : World C)
      → All (λ x. All (IsSteady env) (names_of x)) xs
      → IsCoherent env lru w.cache w.db
      → IsCoherent env lru (serve env lru m xs w).cache (serve env lru m xs w).db
  unfolding serve
  serve-IsCoherent [] w s h = h
  serve-IsCoherent (x ∷ xs) w (s, t) h =
      serve-IsCoherent xs (call env lru m x w) t (call-IsCoherent x s w h)
