-- ===== src/Backend/Collabs.antt =====
-- pkg/backend/collab.go. The outcome of building and sending webhook events is a parameter.
pub mod Laws
use soft_serve.Base.{
  ℕ, Bool, true, false, Option, none, some, List, [], map, Text, text_eq, ltb, if◌then◌else◌,
}
use soft_serve.Base.Int.{negsuc}
use soft_serve.Access.{AccessLevel}
use soft_serve.Env.{Env}
use soft_serve.Names.{sanitize_repo, to_lower, validate_username}
use soft_serve.Store.Schema.{Repo}
use soft_serve.Store.Collabs.{
  add_collab_by_username_and_repo, get_collab_by_username_and_repo, list_collabs_by_repo_as_users,
  remove_collab_by_username_and_repo,
}
use soft_serve.Store.Exec.{
  Error, record_not_found, duplicate_key, collaborator_exist, collaborator_not_found, webhook_error,
  Exec, ◌>>=◌, ◌>>◌, pure, raise, on_error, wrap_error, transaction,
}
use soft_serve.Backend.Users.{ProtoUser}

abbrev pub add_error : Error → Error
add_error e = elim e [ duplicate_key ↦ collaborator_exist | other ↦ other ]

abbrev pub remove_error : Error → Error
remove_error e = elim e [ record_not_found ↦ collaborator_not_found | other ↦ other ]

-- the outcome of building and of sending the webhook event of a repository
pub record Hooks : Type 0 where
  pub new_event : Repo → Text → Bool
  pub send_event : Repo → Text → Bool

abbrev succeed : Bool → Exec (Unit {0})
succeed true = pure tt
succeed false = raise webhook_error

module _ (env : Env) (hooks : Hooks) where
  abbrev notify : Option ProtoUser → Repo → Text → Exec (Unit {0})
  notify none r username = pure tt
  notify (some sender) r username = do
    succeed (hooks.new_event r username)
    succeed (hooks.send_event r username)

  -- AddCollaborator, once the repository is found
  unfoldable pub add_found : Option ProtoUser → Repo → Text → Text → AccessLevel → Exec (Unit {0})
  add_found sender r repo username level = do
    on_error add_error (
        on_error wrap_error (
          transaction (
            add_collab_by_username_and_repo env (to_lower env username) (sanitize_repo env repo)
              level)))
    notify sender r (to_lower env username)

  -- RemoveCollaborator, once the repository is found: the event is built first, and sent last
  unfoldable pub remove_found : Repo → Text → Text → Exec (Unit {0})
  remove_found r repo username = do
    succeed (hooks.new_event r username)
    on_error remove_error (
        on_error wrap_error
          (transaction (remove_collab_by_username_and_repo env username (sanitize_repo env repo))))
    succeed (hooks.send_event r username)

module _ (env : Env) where
  -- Backend.Collaborators
  unfoldable pub collaborators : Text → Exec (List Text)
  collaborators repo = on_error wrap_error (
      transaction (do
        users ← list_collabs_by_repo_as_users env (sanitize_repo env repo)
        pure (map (λ u. u.username) users)))

  -- Backend.IsCollaborator: the level, and whether there is a row; an error comes with -1 and false
  unfoldable pub is_collaborator : Text → Text → Exec (AccessLevel × Bool)
  is_collaborator repo username =
      if text_eq username []
      then pure (negsuc 0, false)
      else on_error wrap_error (
          transaction (do
            m ← get_collab_by_username_and_repo env username (sanitize_repo env repo)
            pure (m.access_level, ltb 0 m.id)))
