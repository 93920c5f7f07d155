-- ===== src/Store/Requests/Consistency.antt =====
-- Sequences of the writes of pkg/store/database, and the consistency of the tables.
use soft_serve.Base.{refl, List, [], ◌∷◌}
use soft_serve.Env.{Env}
use soft_serve.Store.Schema.{Db}
use soft_serve.Store.Exec.{transaction}
use soft_serve.Store.Exec.Preserves.{
  Preserves, Preserves-exec, Preserves-on_error, Preserves-transaction, preserves_rules,
}
use soft_serve.Store.Consistent.{IsConsistent}
use soft_serve.Store.Consistent.Rows.{
  update_repo_name-IsConsistent, insert_access_token-IsConsistent, create_lfs_object-IsConsistent,
  create_lfs_lock_for_user-IsConsistent,
}
use soft_serve.Store.Users.{set_admin_by_username, set_user_password, set_user_password_by_username}
use soft_serve.Store.Repos.{
  update_repo, delete_repo_by_name, set_repo_description_by_name, set_repo_is_hidden_by_name,
  set_repo_is_private_by_name, set_repo_name_by_name, set_repo_project_name_by_name,
}
use soft_serve.Store.Tokens.{
  get_access_token, create_access_token, delete_access_token, delete_access_token_for_user,
}
use soft_serve.Store.Settings.{set_allow_keyless_access, set_anon_access}
use soft_serve.Store.Lfs.{delete_lfs_lock_for_user_by_id, delete_lfs_lock, delete_lfs_object_by_oid}
use soft_serve.Store.Requests
use soft_serve.Store.Requests.{
  Request, add_key, new_user, delete_user, remove_key, set_admin, set_username, set_password,
  set_password_of, new_repo, delete_repo, set_description, set_hidden, set_private, set_repo_name,
  set_project_name, add_collab, remove_collab, new_token, delete_token, delete_token_of,
  set_keyless, set_anon, new_lock, delete_lock_of, delete_lock, new_object, delete_object,
  new_webhook, new_delivery, new_events, delete_webhook, delete_webhook_of, delete_delivery,
  delete_events, update_webhook,
}
use soft_serve.Store.Requests.Handlers.{
  exec_users-IsConsistent, exec_repos-IsConsistent, delete_repos_rule, delete_tokens_rule,
  delete_locks_rule, delete_objects_rule, add_public_key-IsConsistent, create_user-IsConsistent,
  delete_user-IsConsistent, set_username-IsConsistent, update_user-IsConsistent,
  remove_key-IsConsistent, create_repo-IsConsistent, add_collab-IsConsistent,
  remove_collab-IsConsistent,
}
use soft_serve.Store.Webhooks.{
  delete_webhook_by_id, delete_webhook_for_repo_by_id, delete_webhook_delivery_by_id,
}
use soft_serve.Store.Webhooks.Consistency.{
  create_webhook-IsConsistent, create_webhook_delivery-IsConsistent,
  create_webhook_events-IsConsistent, delete_webhooks_rule, delete_deliveries_rule,
  delete_webhook_events_by_id-IsConsistent, update_webhook_by_id-IsConsistent,
}

module _ (env : Env) where
  -- Every request keeps the database consistent, whether it returns a result or an error.
  pub run-IsConsistent : (r : Request) → Preserves IsConsistent (Requests.run env r)
  unfolding Requests.run
  run-IsConsistent (add_key username pk) = add_public_key-IsConsistent env username pk
  run-IsConsistent (new_user username is_admin pks) =
      create_user-IsConsistent env username is_admin pks
  run-IsConsistent (delete_user username) = delete_user-IsConsistent env username
  run-IsConsistent (remove_key username pk) = remove_key-IsConsistent env username pk
  run-IsConsistent (set_admin username is_admin) =
      unfold set_admin_by_username in
      update_user-IsConsistent env username _ (λ u. refl) (λ u. refl)
  run-IsConsistent (set_username username new_username) =
      set_username-IsConsistent env username new_username
  run-IsConsistent (set_password user_id password) =
      unfold set_user_password in exec_users-IsConsistent _ _ (λ u. refl) (λ u. refl)
  run-IsConsistent (set_password_of username password) =
      unfold set_user_password_by_username in
      update_user-IsConsistent env username _ (λ u. refl) (λ u. refl)
  run-IsConsistent (new_repo name user_id project_name description is_private is_hidden is_mirror) =
      create_repo-IsConsistent env _ _ _ _ _ _ _
  run-IsConsistent (delete_repo name) = unfold delete_repo_by_name in delete_repos_rule _
  run-IsConsistent (set_description name description) =
      unfold set_repo_description_by_name update_repo in
      exec_repos-IsConsistent _ _ (λ r. refl) (λ r. refl) (λ r. refl)
  run-IsConsistent (set_hidden name is_hidden) =
      unfold set_repo_is_hidden_by_name update_repo in
      exec_repos-IsConsistent _ _ (λ r. refl) (λ r. refl) (λ r. refl)
  run-IsConsistent (set_private name is_private) =
      unfold set_repo_is_private_by_name update_repo in
      exec_repos-IsConsistent _ _ (λ r. refl) (λ r. refl) (λ r. refl)
  run-IsConsistent (set_repo_name name new_name) =
      unfold set_repo_name_by_name in Preserves-on_error _ _ (update_repo_name-IsConsistent _ _)
  run-IsConsistent (set_project_name name project_name) =
      unfold set_repo_project_name_by_name update_repo in
      exec_repos-IsConsistent _ _ (λ r. refl) (λ r. refl) (λ r. refl)
  run-IsConsistent (add_collab username repo level) =
      add_collab-IsConsistent env username repo level
  run-IsConsistent (remove_collab username repo) = remove_collab-IsConsistent env username repo
  run-IsConsistent (new_token name user_id token expires_at) =
      unfold create_access_token get_access_token in
      search (preserves_rules, insert_access_token-IsConsistent)
  run-IsConsistent (delete_token id) = unfold delete_access_token in delete_tokens_rule _
  run-IsConsistent (delete_token_of user_id id) =
      unfold delete_access_token_for_user in delete_tokens_rule _
  run-IsConsistent (set_keyless allow) =
      unfold set_allow_keyless_access in Preserves-exec _ (λ db h. assumption)
  run-IsConsistent (set_anon level) =
      unfold set_anon_access in Preserves-exec _ (λ db h. assumption)
  run-IsConsistent (new_lock repo_id user_id path refname) =
      create_lfs_lock_for_user-IsConsistent repo_id user_id path refname
  run-IsConsistent (delete_lock_of repo_id user_id id) =
      unfold delete_lfs_lock_for_user_by_id in delete_locks_rule _
  run-IsConsistent (delete_lock repo_id id) = unfold delete_lfs_lock in delete_locks_rule _
  run-IsConsistent (new_object repo_id oid size) = create_lfs_object-IsConsistent repo_id oid size
  run-IsConsistent (delete_object repo_id oid) =
      unfold delete_lfs_object_by_oid in delete_objects_rule _
  run-IsConsistent (new_webhook repo_id url secret content_type active) =
      search (preserves_rules, create_webhook-IsConsistent)
  run-IsConsistent (new_delivery delivery) = create_webhook_delivery-IsConsistent delivery
  run-IsConsistent (new_events webhook_id events) =
      create_webhook_events-IsConsistent webhook_id events
  run-IsConsistent (delete_webhook id) = unfold delete_webhook_by_id in delete_webhooks_rule _
  run-IsConsistent (delete_webhook_of repo_id id) =
      unfold delete_webhook_for_repo_by_id in delete_webhooks_rule _
  run-IsConsistent (delete_delivery webhook_id id) =
      unfold delete_webhook_delivery_by_id in delete_deliveries_rule _
  run-IsConsistent (delete_events ids) = delete_webhook_events_by_id-IsConsistent env ids
  run-IsConsistent (update_webhook repo_id id url secret content_type active) =
      update_webhook_by_id-IsConsistent repo_id id url secret content_type active

  -- From a consistent database, any sequence of requests, each in a transaction of its own, reaches a
  -- consistent database: usernames, keys, repository names, tokens, collaborations, locks, objects,
  -- webhooks and their events are unique, in every table the ids are distinct and, but for those of
  -- deliveries, below the next one, and every reference points to a row that exists.
  pub serve-IsConsistent :
      (db : Db) (rs : List Request) → IsConsistent db → IsConsistent (Requests.serve env db rs)
  unfolding Requests.serve
  serve-IsConsistent db [] h = h
  serve-IsConsistent db (r ∷ rs) h =
      serve-IsConsistent (transaction (Requests.run env r) db).1 rs
        ((Preserves-transaction _ (run-IsConsistent r)).at db h)
