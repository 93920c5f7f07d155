-- ===== src/Store/Webhooks.antt =====
-- pkg/store/database/webhooks.go
pub mod Consistency
use soft_serve.Base.{
  ℕ, ◌+◌, Bool, not, ◌&&◌, ◌||◌, Option, none, some, List, [], ◌∷◌, ◌++◌, map, Text, text_eq, ◌==◌,
  any, contains, select, update,
}
use soft_serve.Env.{Env}
use soft_serve.Store.Schema.{
  Webhook, WebhookEvent, WebhookDelivery, Db, repo_ids, webhook_ids, delete_webhooks,
}
use soft_serve.Store.Exec.{
  Exec, ◌>>=◌, ◌>>◌, pure, raise, gets, get_one, exec, checked, constraint, query_error,
}

-- CreateWebhook: the URL is unique in its repository, which exists; returns the new id
unfoldable pub create_webhook : ℕ → Text → Text → ℕ → Bool → Exec ℕ
create_webhook repo_id url secret content_type active db =
    checked
      (any (λ h. h.repo_id == repo_id && text_eq h.url url) db.webhooks
        || not (contains (repo_ids db) repo_id))
      constraint db.next_webhook
      (λ d. record d {
        webhooks =
            d.webhooks
            ++ record {
              id = d.next_webhook;
              repo_id = repo_id;
              url = url;
              secret = secret;
              content_type = content_type;
              active = active;
            }
              ∷ [];
        next_webhook = d.next_webhook + 1;
      })
      db

-- CreateWebhookDelivery: the id is unique, and the webhook exists
unfoldable pub create_webhook_delivery : WebhookDelivery → Exec (Unit {0})
create_webhook_delivery delivery db =
    checked
      (any (λ d. text_eq d.id delivery.id) db.webhook_deliveries
        || not (contains (webhook_ids db) delivery.webhook_id))
      constraint tt (λ d. record d { webhook_deliveries = d.webhook_deliveries ++ delivery ∷ [] })
      db

-- INSERT INTO webhook_events: each event is there once for a webhook, which exists
unfoldable pub insert_event : ℕ → ℕ → Exec (Unit {0})
insert_event webhook_id event db =
    checked
      (any (λ e. e.webhook_id == webhook_id && e.event == event) db.webhook_events
        || not (contains (webhook_ids db) webhook_id))
      constraint tt
      (λ d. record d {
        webhook_events =
            d.webhook_events
            ++ record { id = d.next_event; webhook_id = webhook_id; event = event } ∷ [];
        next_event = d.next_event + 1;
      })
      db

-- CreateWebhookEvents
unfoldable pub create_webhook_events : ℕ → List ℕ → Exec (Unit {0})
create_webhook_events webhook_id [] = pure tt
create_webhook_events webhook_id (event ∷ events) = do
  insert_event webhook_id event
  create_webhook_events webhook_id events

-- the row of a webhook of a repository
abbrev pub is_hook : ℕ → ℕ → Webhook → Bool
is_hook repo_id id h = h.repo_id == repo_id && h.id == id

-- DeleteWebhookByID
unfoldable pub delete_webhook_by_id : ℕ → Exec (Unit {0})
delete_webhook_by_id id = exec (delete_webhooks (λ h. h.id == id))

-- DeleteWebhookForRepoByID
unfoldable pub delete_webhook_for_repo_by_id : ℕ → ℕ → Exec (Unit {0})
delete_webhook_for_repo_by_id repo_id id = exec (delete_webhooks (is_hook repo_id id))

-- DeleteWebhookDeliveryByID
unfoldable pub delete_webhook_delivery_by_id : ℕ → Text → Exec (Unit {0})
delete_webhook_delivery_by_id webhook_id id = exec (λ db. record db {
  webhook_deliveries =
      select (λ d. not (d.webhook_id == webhook_id && text_eq d.id id)) db.webhook_deliveries;
})

-- GetWebhookByID
unfoldable pub get_webhook_by_id : ℕ → ℕ → Exec Webhook
get_webhook_by_id repo_id id = get_one (λ db. db.webhooks) (is_hook repo_id id)

-- GetWebhookDeliveriesByWebhookID
unfoldable pub get_webhook_deliveries_by_webhook_id : ℕ → Exec (List WebhookDelivery)
get_webhook_deliveries_by_webhook_id webhook_id =
    gets (λ db. select (λ d. d.webhook_id == webhook_id) db.webhook_deliveries)

-- GetWebhookDeliveryByID
unfoldable pub get_webhook_delivery_by_id : ℕ → Text → Exec WebhookDelivery
get_webhook_delivery_by_id webhook_id id =
    get_one (λ db. db.webhook_deliveries) (λ d. d.webhook_id == webhook_id && text_eq d.id id)

-- GetWebhookEventByID
unfoldable pub get_webhook_event_by_id : ℕ → Exec WebhookEvent
get_webhook_event_by_id id = get_one (λ db. db.webhook_events) (λ e. e.id == id)

-- GetWebhookEventsByWebhookID
unfoldable pub get_webhook_events_by_webhook_id : ℕ → Exec (List WebhookEvent)
get_webhook_events_by_webhook_id webhook_id =
    gets (λ db. select (λ e. e.webhook_id == webhook_id) db.webhook_events)

-- GetWebhooksByRepoID
unfoldable pub get_webhooks_by_repo_id : ℕ → Exec (List Webhook)
get_webhooks_by_repo_id repo_id = gets (λ db. select (λ h. h.repo_id == repo_id) db.webhooks)

-- the id, status and event of a delivery
pub record DeliveryRow : Type 0 where
  pub id : Text
  pub response_status : ℕ
  pub event : ℕ

abbrev pub delivery_row : WebhookDelivery → DeliveryRow
delivery_row d = record { id = d.id; response_status = d.response_status; event = d.event }

-- ListWebhookDeliveriesByWebhookID
unfoldable pub list_webhook_deliveries_by_webhook_id : ℕ → Exec (List DeliveryRow)
list_webhook_deliveries_by_webhook_id webhook_id =
    gets (λ db. map delivery_row (select (λ d. d.webhook_id == webhook_id) db.webhook_deliveries))

-- UpdateWebhookByID: no other webhook of the repository may have the URL
unfoldable pub update_webhook_by_id : ℕ → ℕ → Text → Text → ℕ → Bool → Exec (Unit {0})
update_webhook_by_id repo_id id url secret content_type active db =
    checked
      (any (is_hook repo_id id) db.webhooks
        && any (λ h. h.repo_id == repo_id && text_eq h.url url && not (h.id == id)) db.webhooks)
      constraint tt
      (λ d. record d {
        webhooks =
            update (is_hook repo_id id)
              (λ h. record h {
                url = url;
                secret = secret;
                content_type = content_type;
                active = active;
              })
              d.webhooks;
      })
      db

-- the inner join with webhook_events: a row for each of the events that a webhook has
unfoldable join_events : List ℕ → List WebhookEvent → List Webhook → List Webhook
join_events events rows [] = []
join_events events rows (h ∷ hs) =
    map (λ e. h) (select (λ e. e.webhook_id == h.id && contains events e.event) rows)
    ++ join_events events rows hs

module _ (env : Env) where
  -- the statement, with the arguments that sqlx.In gives
  abbrev pub delete_events : Option (List ℕ) → Exec (Unit {0})
  delete_events none = raise query_error
  delete_events (some ids) =
      exec (λ db. record db {
        webhook_events = select (λ e. not (contains ids e.id)) db.webhook_events;
      })

  -- DeleteWebhookEventsByID
  unfoldable pub delete_webhook_events_by_id : List ℕ → Exec (Unit {0})
  delete_webhook_events_by_id ids = delete_events (env.sqlx_in ids)

  abbrev joined : ℕ → Option (List ℕ) → Exec (List Webhook)
  joined repo_id none = raise query_error
  joined repo_id (some events) =
      gets (λ db.
        join_events events db.webhook_events (select (λ h. h.repo_id == repo_id) db.webhooks))

  -- GetWebhooksByRepoIDWhereEvent
  unfoldable pub get_webhooks_by_repo_id_where_event : ℕ → List ℕ → Exec (List Webhook)
  unfolding join_events
  get_webhooks_by_repo_id_where_event repo_id events = joined repo_id (env.sqlx_in events)
