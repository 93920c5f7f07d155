-- ===== src/Backend/Collabs/Laws.antt =====
-- The errors of RemoveCollaborator (pkg/backend/collab.go).
use soft_serve.Base.{◌≢◌, Text, arith, Option-cases, inl, inr}
use soft_serve.Env.{Env}
use soft_serve.Names.{sanitize_repo, to_lower, validate_username}
use soft_serve.Store.Schema.{Repo, Db}
use soft_serve.Store.Exec.{
  collaborator_not_found, err, ◌>>=◌, on_error, wrap_error, transaction, pure, raise,
}
use soft_serve.Store.Users.{lower_valid}
use soft_serve.Store.Collabs.{remove_collab_by_username_and_repo}
use soft_serve.Backend.Collabs.{Hooks, remove_error, remove_found}

module _ (env : Env) where
  removal-error :
      (repo username : Text) (db : Db)
      → (on_error remove_error
          (on_error wrap_error (transaction (remove_collab_by_username_and_repo env username repo)))
          db).0
        ≢ err collaborator_not_found
  unfolding remove_collab_by_username_and_repo lower_valid on_error transaction ◌>>=◌
  removal-error repo username db e =
      elim (Option-cases (validate_username env (to_lower env username))) [
        | inl good ↦ ground (arith, good)
        | inr (x, bad) ↦ ground (arith, bad)
      ]

module _ (env : Env) (hooks : Hooks) where
  -- RemoveCollaborator, once it has found the repository, never returns ErrCollaboratorNotFound: the
  -- DELETE that it maps that error from reports no missing row.
  pub remove_found-error :
      (r : Repo) (repo username : Text) (db : Db)
      → (remove_found env hooks r repo username db).0 ≢ err collaborator_not_found
  unfolding remove_found ◌>>=◌ pure raise
  remove_found-error r repo username db e =
      ground (arith, removal-error env (sanitize_repo env repo) username db)
