-- ===== src/Store/Consistent.antt =====
-- The consistency of a database by the schema of pkg/db/migrate: unique columns are unique, ids are
-- fresh, and references point to rows that exist.
pub mod Statements
pub mod Rows
pub mod Deletes
use soft_serve.Base.{ℕ, ◌+◌, ◌<◌, ◌&&◌, List, All, text_eq, ◌==◌, Bool}
use soft_serve.Store.Schema.{
  User, PublicKey, Repo, Collab, AccessToken, LfsObject, LfsLock, Webhook, WebhookEvent,
  WebhookDelivery, Db, user_ids, repo_ids, webhook_ids,
}
use soft_serve.Store.Rows.{Distinct, Refers}

abbrev pub same_username : User → User → Bool
same_username u v = text_eq u.username v.username

abbrev pub same_user_id : User → User → Bool
same_user_id u v = u.id == v.id

abbrev pub same_key : PublicKey → PublicKey → Bool
same_key k j = text_eq k.public_key j.public_key

abbrev pub same_repo_name : Repo → Repo → Bool
same_repo_name r s = text_eq r.name s.name

abbrev pub same_repo_id : Repo → Repo → Bool
same_repo_id r s = r.id == s.id

abbrev pub same_collab : Collab → Collab → Bool
same_collab c d = c.user_id == d.user_id && c.repo_id == d.repo_id

abbrev pub same_token : AccessToken → AccessToken → Bool
same_token t s = text_eq t.token s.token

abbrev pub same_object : LfsObject → LfsObject → Bool
same_object o q = o.repo_id == q.repo_id && text_eq o.oid q.oid

abbrev pub same_lock : LfsLock → LfsLock → Bool
same_lock l m = l.repo_id == m.repo_id && text_eq l.path m.path

abbrev pub same_webhook : Webhook → Webhook → Bool
same_webhook h g = h.repo_id == g.repo_id && text_eq h.url g.url

abbrev pub same_webhook_id : Webhook → Webhook → Bool
same_webhook_id h g = h.id == g.id

abbrev pub same_event : WebhookEvent → WebhookEvent → Bool
same_event e f = e.webhook_id == f.webhook_id && e.event == f.event

abbrev pub same_delivery : WebhookDelivery → WebhookDelivery → Bool
same_delivery d e = text_eq d.id e.id

-- ids that are distinct, and below the next one
abbrev pub IsNumbered : {A : Type 0} → (A → ℕ) → ℕ → List A → Type 0
IsNumbered id n rows = Distinct (λ r s. id r == id s) rows × All (λ r. id r < n) rows

pub record IsConsistent (db : Db) : Type 0 where
  pub usernames : Distinct same_username db.users
  pub user_ids_distinct : Distinct same_user_id db.users
  pub user_ids_below : All (λ u. u.id < db.next_user) db.users
  pub keys : Distinct same_key db.public_keys
  pub key_user : Refers (user_ids db) (λ k. k.user_id) db.public_keys
  pub key_ids : IsNumbered (λ r. r.id) db.next_key db.public_keys
  pub repo_names : Distinct same_repo_name db.repos
  pub repo_ids_distinct : Distinct same_repo_id db.repos
  pub repo_ids_below : All (λ r. r.id < db.next_repo) db.repos
  pub repo_user : Refers (user_ids db) (λ r. r.user_id) db.repos
  pub collabs : Distinct same_collab db.collabs
  pub collab_user : Refers (user_ids db) (λ c. c.user_id) db.collabs
  pub collab_repo : Refers (repo_ids db) (λ c. c.repo_id) db.collabs
  pub collab_ids : IsNumbered (λ r. r.id) db.next_collab db.collabs
  pub tokens : Distinct same_token db.access_tokens
  pub token_user : Refers (user_ids db) (λ t. t.user_id) db.access_tokens
  pub token_ids : IsNumbered (λ r. r.id) db.next_token db.access_tokens
  pub objects : Distinct same_object db.lfs_objects
  pub object_repo : Refers (repo_ids db) (λ o. o.repo_id) db.lfs_objects
  pub object_ids : IsNumbered (λ r. r.id) db.next_object db.lfs_objects
  pub locks : Distinct same_lock db.lfs_locks
  pub lock_user : Refers (user_ids db) (λ l. l.user_id) db.lfs_locks
  pub lock_repo : Refers (repo_ids db) (λ l. l.repo_id) db.lfs_locks
  pub lock_ids : IsNumbered (λ r. r.id) db.next_lock db.lfs_locks
  pub webhook_urls : Distinct same_webhook db.webhooks
  pub webhook_ids_distinct : Distinct same_webhook_id db.webhooks
  pub webhook_ids_below : All (λ h. h.id < db.next_webhook) db.webhooks
  pub webhook_repo : Refers (repo_ids db) (λ h. h.repo_id) db.webhooks
  pub events : Distinct same_event db.webhook_events
  pub event_webhook : Refers (webhook_ids db) (λ e. e.webhook_id) db.webhook_events
  pub event_ids : IsNumbered (λ r. r.id) db.next_event db.webhook_events
  pub deliveries : Distinct same_delivery db.webhook_deliveries
  pub delivery_webhook : Refers (webhook_ids db) (λ d. d.webhook_id) db.webhook_deliveries
