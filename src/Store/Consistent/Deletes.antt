-- ===== src/Store/Consistent/Deletes.antt =====
-- The deletes of users and repositories, with their cascades, and the consistency of the tables.
use soft_serve.Base.{ℕ, Bool, not, List, map, All-select, select, contains}
use soft_serve.Store.Schema.{
  User, Repo, Webhook, Db, delete_webhooks, delete_repos, drop_user_rows, delete_users,
}
use soft_serve.Store.Rows.{Distinct-select, Refers-cascade}
use soft_serve.Store.Consistent.{IsConsistent}
use soft_serve.Store.Consistent.Statements.{IsNumbered-select}

abbrev left_by : {A : Type 0} → List ℕ → (A → ℕ) → A → Bool
left_by gone fk row = not (contains gone (fk row))

pub delete_webhooks-IsConsistent :
    {db : Db} (p : Webhook → Bool) → IsConsistent db → IsConsistent (delete_webhooks p db)
unfolding delete_webhooks
delete_webhooks-IsConsistent {db} p h =
    let gone : List ℕ = map (λ w. w.id) (select p db.webhooks) in
    assumption (
      Distinct-select _ (λ w. not (p w)) db.webhooks h.webhook_urls,
      Distinct-select _ (λ w. not (p w)) db.webhooks h.webhook_ids_distinct,
      All-select _ (λ w. not (p w)) db.webhooks h.webhook_ids_below,
      All-select _ (λ w. not (p w)) db.webhooks h.webhook_repo,
      Distinct-select _ (left_by gone (λ e. e.webhook_id)) db.webhook_events h.events,
      IsNumbered-select (λ r. r.id) db.next_event (left_by gone (λ e. e.webhook_id))
          db.webhook_events h.event_ids,
      Refers-cascade (λ e. e.webhook_id) (λ w. w.id) p db.webhooks db.webhook_events
          h.event_webhook,
      Distinct-select _ (left_by gone (λ d. d.webhook_id)) db.webhook_deliveries h.deliveries,
      Refers-cascade (λ d. d.webhook_id) (λ w. w.id) p db.webhooks db.webhook_deliveries
          h.delivery_webhook,
    )

pub delete_repos-IsConsistent :
    {db : Db} (p : Repo → Bool) → IsConsistent db → IsConsistent (delete_repos p db)
unfolding delete_repos delete_webhooks
delete_repos-IsConsistent {db} p h =
    let gone : List ℕ = map (λ r. r.id) (select p db.repos) in
    let rest = delete_webhooks-IsConsistent (λ w. contains gone w.repo_id) h in
    assumption (
      Distinct-select _ (λ r. not (p r)) db.repos h.repo_names,
      Distinct-select _ (λ r. not (p r)) db.repos h.repo_ids_distinct,
      All-select _ (λ r. not (p r)) db.repos h.repo_ids_below,
      All-select _ (λ r. not (p r)) db.repos h.repo_user,
      Distinct-select _ (left_by gone (λ c. c.repo_id)) db.collabs h.collabs,
      IsNumbered-select (λ r. r.id) db.next_collab (left_by gone (λ c. c.repo_id)) db.collabs
          h.collab_ids,
      All-select _ (left_by gone (λ c. c.repo_id)) db.collabs h.collab_user,
      Refers-cascade (λ c. c.repo_id) (λ r. r.id) p db.repos db.collabs h.collab_repo,
      Distinct-select _ (left_by gone (λ o. o.repo_id)) db.lfs_objects h.objects,
      IsNumbered-select (λ r. r.id) db.next_object (left_by gone (λ o. o.repo_id)) db.lfs_objects
          h.object_ids,
      Refers-cascade (λ o. o.repo_id) (λ r. r.id) p db.repos db.lfs_objects h.object_repo,
      Distinct-select _ (left_by gone (λ l. l.repo_id)) db.lfs_locks h.locks,
      IsNumbered-select (λ r. r.id) db.next_lock (left_by gone (λ l. l.repo_id)) db.lfs_locks
          h.lock_ids,
      All-select _ (left_by gone (λ l. l.repo_id)) db.lfs_locks h.lock_user,
      Refers-cascade (λ l. l.repo_id) (λ r. r.id) p db.repos db.lfs_locks h.lock_repo,
      rest.webhook_urls,
      rest.webhook_ids_distinct,
      rest.webhook_ids_below,
      Refers-cascade (λ w. w.repo_id) (λ r. r.id) p db.repos db.webhooks h.webhook_repo,
      rest.events,
      rest.event_ids,
      rest.event_webhook,
      rest.deliveries,
      rest.delivery_webhook,
    )

drop_user_rows-IsConsistent :
    {db : Db} (gone : List ℕ) → IsConsistent db → IsConsistent (drop_user_rows gone db)
unfolding drop_user_rows
drop_user_rows-IsConsistent {db} gone h = assumption (
  Distinct-select _ (left_by gone (λ k. k.user_id)) db.public_keys h.keys,
  IsNumbered-select (λ r. r.id) db.next_key (left_by gone (λ k. k.user_id)) db.public_keys
      h.key_ids,
  All-select _ (left_by gone (λ k. k.user_id)) db.public_keys h.key_user,
  Distinct-select _ (left_by gone (λ c. c.user_id)) db.collabs h.collabs,
  IsNumbered-select (λ r. r.id) db.next_collab (left_by gone (λ c. c.user_id)) db.collabs
      h.collab_ids,
  All-select _ (left_by gone (λ c. c.user_id)) db.collabs h.collab_user,
  All-select _ (left_by gone (λ c. c.user_id)) db.collabs h.collab_repo,
  Distinct-select _ (left_by gone (λ t. t.user_id)) db.access_tokens h.tokens,
  IsNumbered-select (λ r. r.id) db.next_token (left_by gone (λ t. t.user_id)) db.access_tokens
      h.token_ids,
  All-select _ (left_by gone (λ t. t.user_id)) db.access_tokens h.token_user,
  Distinct-select _ (left_by gone (λ l. l.user_id)) db.lfs_locks h.locks,
  IsNumbered-select (λ r. r.id) db.next_lock (left_by gone (λ l. l.user_id)) db.lfs_locks
      h.lock_ids,
  All-select _ (left_by gone (λ l. l.user_id)) db.lfs_locks h.lock_user,
  All-select _ (left_by gone (λ l. l.user_id)) db.lfs_locks h.lock_repo,
)

-- Deleting users leaves a consistent database: their keys, tokens, collaborations, locks and
-- repositories go with them.
pub delete_users-IsConsistent :
    {db : Db} (p : User → Bool) → IsConsistent db → IsConsistent (delete_users p db)
unfolding delete_users delete_repos delete_webhooks drop_user_rows
delete_users-IsConsistent {db} p h =
    let gone : List ℕ = map (λ u. u.id) (select p db.users) in
    let dropped = drop_user_rows gone db in
    let owned : Repo → Bool = λ r. contains gone r.user_id in
    let gone_repos : List ℕ = map (λ r. r.id) (select owned db.repos) in
    let rest =
      delete_repos-IsConsistent {db = dropped} owned
        (drop_user_rows-IsConsistent {db = db} gone h) in
    assumption (
      Distinct-select _ (λ u. not (p u)) db.users h.usernames,
      Distinct-select _ (λ u. not (p u)) db.users h.user_ids_distinct,
      All-select _ (λ u. not (p u)) db.users h.user_ids_below,
      Refers-cascade (λ k. k.user_id) (λ u. u.id) p db.users db.public_keys h.key_user,
      Refers-cascade (λ r. r.user_id) (λ u. u.id) p db.users db.repos h.repo_user,
      Refers-cascade (λ t. t.user_id) (λ u. u.id) p db.users db.access_tokens h.token_user,
      All-select _ (left_by gone_repos (λ c. c.repo_id)) _
          (Refers-cascade (λ c. c.user_id) (λ u. u.id) p db.users db.collabs h.collab_user),
      All-select _ (left_by gone_repos (λ l. l.repo_id)) _
          (Refers-cascade (λ l. l.user_id) (λ u. u.id) p db.users db.lfs_locks h.lock_user),
      rest.keys,
      rest.key_ids,
      rest.repo_names,
      rest.repo_ids_distinct,
      rest.repo_ids_below,
      rest.collabs,
      rest.collab_ids,
      rest.collab_repo,
      rest.tokens,
      rest.token_ids,
      rest.objects,
      rest.object_ids,
      rest.object_repo,
      rest.locks,
      rest.lock_ids,
      rest.lock_repo,
    )
