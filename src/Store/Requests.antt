-- ===== src/Store/Requests.antt =====
-- The statements of the stores that change the database, as data, and any sequence of them.
pub mod Handlers
pub mod Consistency
use soft_serve.Base.{ℕ, Bool, Option, List, [], ◌∷◌, Text}
use soft_serve.Access.{AccessLevel}
use soft_serve.Env.{Env}
use soft_serve.Store.Schema.{WebhookDelivery, Db}
use soft_serve.Store.Exec.{Exec, ◌>>=◌, pure, transaction}
use soft_serve.Store.Users.{
  add_public_key_by_username, create_user, delete_user_by_username, remove_public_key_by_username,
  set_admin_by_username, set_username_by_username, set_user_password, set_user_password_by_username,
}
use soft_serve.Store.Repos.{
  create_repo, delete_repo_by_name, set_repo_description_by_name, set_repo_is_hidden_by_name,
  set_repo_is_private_by_name, set_repo_name_by_name, set_repo_project_name_by_name,
}
use soft_serve.Store.Collabs.{add_collab_by_username_and_repo, remove_collab_by_username_and_repo}
use soft_serve.Store.Tokens.{create_access_token, delete_access_token, delete_access_token_for_user}
use soft_serve.Store.Settings.{set_allow_keyless_access, set_anon_access}
use soft_serve.Store.Lfs.{
  create_lfs_lock_for_user, delete_lfs_lock_for_user_by_id, delete_lfs_lock, create_lfs_object,
  delete_lfs_object_by_oid,
}
use soft_serve.Store.Webhooks.{
  create_webhook, create_webhook_delivery, create_webhook_events, delete_webhook_by_id,
  delete_webhook_for_repo_by_id, delete_webhook_delivery_by_id, delete_webhook_events_by_id,
  update_webhook_by_id,
}

pub data Request : Type 0 where
  add_key : (username pk : Text) → Request
  new_user : (username : Text) (is_admin : Bool) (pks : List Text) → Request
  delete_user : (username : Text) → Request
  remove_key : (username pk : Text) → Request
  set_admin : (username : Text) (is_admin : Bool) → Request
  set_username : (username new_username : Text) → Request
  set_password : (user_id : ℕ) (password : Text) → Request
  set_password_of : (username password : Text) → Request
  new_repo :
      (name : Text) (user_id : ℕ) (project_name description : Text)
      (is_private is_hidden is_mirror : Bool)
      → Request
  delete_repo : (name : Text) → Request
  set_description : (name description : Text) → Request
  set_hidden : (name : Text) (is_hidden : Bool) → Request
  set_private : (name : Text) (is_private : Bool) → Request
  set_repo_name : (name new_name : Text) → Request
  set_project_name : (name project_name : Text) → Request
  add_collab : (username repo : Text) (level : AccessLevel) → Request
  remove_collab : (username repo : Text) → Request
  new_token : (name : Text) (user_id : ℕ) (token : Text) (expires_at : Option ℕ) → Request
  delete_token : (id : ℕ) → Request
  delete_token_of : (user_id id : ℕ) → Request
  set_keyless : (allow : Bool) → Request
  set_anon : (level : AccessLevel) → Request
  new_lock : (repo_id user_id : ℕ) (path refname : Text) → Request
  delete_lock_of : (repo_id user_id id : ℕ) → Request
  delete_lock : (repo_id id : ℕ) → Request
  new_object : (repo_id : ℕ) (oid : Text) (size : ℕ) → Request
  delete_object : (repo_id : ℕ) (oid : Text) → Request
  new_webhook : (repo_id : ℕ) (url secret : Text) (content_type : ℕ) (active : Bool) → Request
  new_delivery : (delivery : WebhookDelivery) → Request
  new_events : (webhook_id : ℕ) (events : List ℕ) → Request
  delete_webhook : (id : ℕ) → Request
  delete_webhook_of : (repo_id id : ℕ) → Request
  delete_delivery : (webhook_id : ℕ) (id : Text) → Request
  delete_events : (ids : List ℕ) → Request
  update_webhook : (repo_id id : ℕ) (url secret : Text) (content_type : ℕ) (active : Bool) → Request

module _ (env : Env) where
  unfoldable pub run : Request → Exec (Unit {0})
  run (add_key username pk) = add_public_key_by_username env username pk
  run (new_user username is_admin pks) = create_user env username is_admin pks
  run (delete_user username) = delete_user_by_username env username
  run (remove_key username pk) = remove_public_key_by_username env username pk
  run (set_admin username is_admin) = set_admin_by_username env username is_admin
  run (set_username username new_username) = set_username_by_username env username new_username
  run (set_password user_id password) = set_user_password env user_id password
  run (set_password_of username password) = set_user_password_by_username env username password
  run (new_repo name user_id project_name description is_private is_hidden is_mirror) =
      create_repo env name user_id project_name description is_private is_hidden is_mirror
  run (delete_repo name) = delete_repo_by_name env name
  run (set_description name description) = set_repo_description_by_name env name description
  run (set_hidden name is_hidden) = set_repo_is_hidden_by_name env name is_hidden
  run (set_private name is_private) = set_repo_is_private_by_name env name is_private
  run (set_repo_name name new_name) = set_repo_name_by_name env name new_name
  run (set_project_name name project_name) = set_repo_project_name_by_name env name project_name
  run (add_collab username repo level) = add_collab_by_username_and_repo env username repo level
  run (remove_collab username repo) = remove_collab_by_username_and_repo env username repo
  run (new_token name user_id token expires_at) = do
    _ ← create_access_token name user_id token expires_at
    pure tt
  run (delete_token id) = delete_access_token id
  run (delete_token_of user_id id) = delete_access_token_for_user user_id id
  run (set_keyless allow) = set_allow_keyless_access allow
  run (set_anon level) = set_anon_access level
  run (new_lock repo_id user_id path refname) =
      create_lfs_lock_for_user repo_id user_id path refname
  run (delete_lock_of repo_id user_id id) = delete_lfs_lock_for_user_by_id repo_id user_id id
  run (delete_lock repo_id id) = delete_lfs_lock repo_id id
  run (new_object repo_id oid size) = create_lfs_object repo_id oid size
  run (delete_object repo_id oid) = delete_lfs_object_by_oid repo_id oid
  run (new_webhook repo_id url secret content_type active) = do
    _ ← create_webhook repo_id url secret content_type active
    pure tt
  run (new_delivery delivery) = create_webhook_delivery delivery
  run (new_events webhook_id events) = create_webhook_events webhook_id events
  run (delete_webhook id) = delete_webhook_by_id id
  run (delete_webhook_of repo_id id) = delete_webhook_for_repo_by_id repo_id id
  run (delete_delivery webhook_id id) = delete_webhook_delivery_by_id webhook_id id
  run (delete_events ids) = delete_webhook_events_by_id env ids
  run (update_webhook repo_id id url secret content_type active) =
      update_webhook_by_id repo_id id url secret content_type active

  -- each request in a transaction of its own, whatever the ones before it returned
  unfoldable pub serve : Db → List Request → Db
  unfolding run
  serve db [] = db
  serve db (r ∷ rs) = serve (transaction (run r) db).1 rs
