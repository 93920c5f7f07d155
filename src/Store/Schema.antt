-- ===== src/Store/Schema.antt =====
-- pkg/db/models and the tables of pkg/db/migrate/0001_create_tables and 0002_webhooks: the rows, the
-- tables, what the constraints check, and what ON DELETE CASCADE removes. The columns created_at and updated_at are
-- left out. A table lists its rows in the order of their ids.
use soft_serve.Base.{ℕ, Bool, not, Option, none, List, [], map, Text, select, contains}
use soft_serve.Access.{AccessLevel}

pub record User : Type 0 where
  pub id : ℕ
  pub username : Text
  pub admin : Bool
  pub password : Option Text

pub record PublicKey : Type 0 where
  pub id : ℕ
  pub user_id : ℕ
  pub public_key : Text

pub record Repo : Type 0 where
  pub id : ℕ
  pub name : Text
  pub project_name : Text
  pub description : Text
  pub private : Bool
  pub mirror : Bool
  pub hidden : Bool
  pub user_id : ℕ

pub record Collab : Type 0 where
  pub id : ℕ
  pub repo_id : ℕ
  pub user_id : ℕ
  pub access_level : AccessLevel

pub record AccessToken : Type 0 where
  pub id : ℕ
  pub name : Text
  pub user_id : ℕ
  pub token : Text
  pub expires_at : Option ℕ

pub record LfsObject : Type 0 where
  pub id : ℕ
  pub oid : Text
  pub size : ℕ
  pub repo_id : ℕ

pub record LfsLock : Type 0 where
  pub id : ℕ
  pub path : Text
  pub user_id : ℕ
  pub repo_id : ℕ
  pub refname : Text

pub record Webhook : Type 0 where
  pub id : ℕ
  pub repo_id : ℕ
  pub url : Text
  pub secret : Text
  pub content_type : ℕ
  pub active : Bool

pub record WebhookEvent : Type 0 where
  pub id : ℕ
  pub webhook_id : ℕ
  pub event : ℕ

-- the id is the text of a UUID
pub record WebhookDelivery : Type 0 where
  pub id : Text
  pub webhook_id : ℕ
  pub event : ℕ
  pub request_url : Text
  pub request_method : Text
  pub request_error : Text
  pub request_headers : Text
  pub request_body : Text
  pub response_status : ℕ
  pub response_headers : Text
  pub response_body : Text

-- The tables, each with the next value of its AUTOINCREMENT column. A setting is `none` if the table
-- has no row for its key.
pub record Db : Type 0 where
  pub users : List User
  pub next_user : ℕ
  pub public_keys : List PublicKey
  pub next_key : ℕ
  pub repos : List Repo
  pub next_repo : ℕ
  pub collabs : List Collab
  pub next_collab : ℕ
  pub access_tokens : List AccessToken
  pub next_token : ℕ
  pub lfs_objects : List LfsObject
  pub next_object : ℕ
  pub lfs_locks : List LfsLock
  pub next_lock : ℕ
  pub webhooks : List Webhook
  pub next_webhook : ℕ
  pub webhook_events : List WebhookEvent
  pub next_event : ℕ
  pub webhook_deliveries : List WebhookDelivery
  pub allow_keyless : Option Bool
  pub anon_access : Option Text

abbrev pub empty_db : Db
empty_db = record {
  users = [];
  next_user = 1;
  public_keys = [];
  next_key = 1;
  repos = [];
  next_repo = 1;
  collabs = [];
  next_collab = 1;
  access_tokens = [];
  next_token = 1;
  lfs_objects = [];
  next_object = 1;
  lfs_locks = [];
  next_lock = 1;
  webhooks = [];
  next_webhook = 1;
  webhook_events = [];
  next_event = 1;
  webhook_deliveries = [];
  allow_keyless = none;
  anon_access = none;
}

abbrev pub user_ids : Db → List ℕ
user_ids db = map (λ u. u.id) db.users

abbrev pub repo_ids : Db → List ℕ
repo_ids db = map (λ r. r.id) db.repos

abbrev pub webhook_ids : Db → List ℕ
webhook_ids db = map (λ h. h.id) db.webhooks

-- DELETE FROM webhooks WHERE p, with the rows that refer to a deleted webhook
unfoldable pub delete_webhooks : (Webhook → Bool) → Db → Db
delete_webhooks p db =
    let gone = map (λ h. h.id) (select p db.webhooks) in
    record db {
      webhooks = select (λ h. not (p h)) db.webhooks;
      webhook_events = select (λ e. not (contains gone e.webhook_id)) db.webhook_events;
      webhook_deliveries = select (λ d. not (contains gone d.webhook_id)) db.webhook_deliveries;
    }

-- DELETE FROM repos WHERE p, with the rows that refer to a deleted repository
unfoldable pub delete_repos : (Repo → Bool) → Db → Db
delete_repos p db =
    let gone = map (λ r. r.id) (select p db.repos) in
    let rest = delete_webhooks (λ h. contains gone h.repo_id) db in
    record rest {
      repos = select (λ r. not (p r)) db.repos;
      collabs = select (λ c. not (contains gone c.repo_id)) db.collabs;
      lfs_objects = select (λ o. not (contains gone o.repo_id)) db.lfs_objects;
      lfs_locks = select (λ l. not (contains gone l.repo_id)) db.lfs_locks;
    }

-- the rows, other than repositories, that refer to one of the users
unfoldable pub drop_user_rows : List ℕ → Db → Db
drop_user_rows gone db = record db {
  public_keys = select (λ k. not (contains gone k.user_id)) db.public_keys;
  collabs = select (λ c. not (contains gone c.user_id)) db.collabs;
  access_tokens = select (λ t. not (contains gone t.user_id)) db.access_tokens;
  lfs_locks = select (λ l. not (contains gone l.user_id)) db.lfs_locks;
}

-- DELETE FROM users WHERE p, with the rows that refer to a deleted user, their repositories included
unfoldable pub delete_users : (User → Bool) → Db → Db
delete_users p db =
    let gone = map (λ u. u.id) (select p db.users) in
    let rest = delete_repos (λ r. contains gone r.user_id) (drop_user_rows gone db) in
    record rest { users = select (λ u. not (p u)) db.users }
