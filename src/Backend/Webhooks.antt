-- ===== src/Backend/Webhooks.antt =====
-- pkg/backend/webhooks.go. `validate` is ValidateWebhookURL; a repository is given by its id.
pub mod Laws
pub mod Created
use soft_serve.Base.{ℕ, ◌==◌, Bool, not, any, Option, none, some, List, [], ◌∷◌, map, select, Text}
use soft_serve.Env.{Env}
use soft_serve.Names.{sanitize}
use soft_serve.Webhook.{UrlError}
use soft_serve.Webhook.Event.{Event}
use soft_serve.Store.Schema.{Webhook, WebhookEvent, WebhookDelivery}
use soft_serve.Store.Exec.{
  Exec, ◌>>=◌, ◌>>◌, pure, raise, on_error, wrap_error, transaction, invalid_webhook,
}
use soft_serve.Store.Webhooks
use soft_serve.Store.Webhooks.{
  create_webhook_events, get_webhook_by_id, get_webhook_events_by_webhook_id,
  get_webhooks_by_repo_id, update_webhook_by_id, delete_webhook_events_by_id,
  delete_webhook_for_repo_by_id, DeliveryRow, list_webhook_deliveries_by_webhook_id,
  get_webhook_delivery_by_id,
}

-- webhook.Hook
pub record Hook : Type 0 where
  pub webhook : Webhook
  pub events : List Event

abbrev pub event_of : WebhookEvent → Event
event_of e = e.event

abbrev hook_of : Webhook → List WebhookEvent → Hook
hook_of h rows = record { webhook = h; events = map event_of rows }

-- `if err := ValidateWebhookURL(url); err != nil { return err }`
abbrev pub accepted : Option UrlError → Exec (Unit {0})
accepted none = pure tt
accepted (some e) = raise (invalid_webhook e)

-- Backend.Webhook
unfoldable pub webhook : ℕ → ℕ → Exec Hook
webhook repo_id id = on_error wrap_error (
    transaction (do
      h ← on_error wrap_error (get_webhook_by_id repo_id id)
      rows ← on_error wrap_error (get_webhook_events_by_webhook_id id)
      pure (hook_of h rows)))

-- the loop of ListWebhooks
unfoldable pub with_events : List Webhook → Exec (List Hook)
with_events [] = pure []
with_events (h ∷ hs) = do
  rows ← get_webhook_events_by_webhook_id h.id
  hooks ← with_events hs
  pure (hook_of h rows ∷ hooks)

-- Backend.ListWebhooks
unfoldable pub list_webhooks : ℕ → Exec (List Hook)
unfolding with_events
list_webhooks repo_id =
    on_error wrap_error
      (transaction (do hooks ← get_webhooks_by_repo_id repo_id; with_events hooks))

-- Backend.DeleteWebhook
unfoldable pub delete_webhook : ℕ → ℕ → Exec (Unit {0})
delete_webhook repo_id id = transaction (do
  h ← on_error wrap_error (get_webhook_by_id repo_id id)
  on_error wrap_error (delete_webhook_for_repo_by_id repo_id id))

-- Backend.ListWebhookDeliveries
unfoldable pub list_webhook_deliveries : ℕ → Exec (List DeliveryRow)
list_webhook_deliveries id =
    on_error wrap_error
      (transaction (on_error wrap_error (list_webhook_deliveries_by_webhook_id id)))

-- Backend.WebhookDelivery
unfoldable pub webhook_delivery : ℕ → Text → Exec WebhookDelivery
webhook_delivery webhook_id id =
    on_error wrap_error
      (transaction (on_error wrap_error (get_webhook_delivery_by_id webhook_id id)))

-- RedeliverWebhookDelivery, up to the call of SendWebhook with what it has found
unfoldable pub find_delivery : ℕ → ℕ → Text → Exec (Webhook × WebhookDelivery)
find_delivery repo_id id delivery_id = on_error wrap_error (
    transaction (do
      h ← on_error wrap_error (get_webhook_by_id repo_id id)
      d ← on_error wrap_error (get_webhook_delivery_by_id id delivery_id)
      pure (h, d)))

-- the events that UpdateWebhook deletes, by their ids, and those that it adds
abbrev pub to_be_deleted : List Event → List WebhookEvent → List ℕ
to_be_deleted updated current =
    map (λ e. e.id) (select (λ e. not (any (λ ne. ne == e.event) updated)) current)

abbrev pub new_events : List Event → List WebhookEvent → List Event
new_events updated current = select (λ e. not (any (λ ne. e == ne.event) current)) updated

module _ (env : Env) (validate : Text → Option UrlError) where
  -- Backend.CreateWebhook
  unfoldable pub create_webhook : ℕ → Text → ℕ → Text → List Event → Bool → Exec (Unit {0})
  create_webhook repo_id url content_type secret events active = do
    accepted (validate (sanitize env url))
    transaction (do
      id ←
          on_error wrap_error
            (Webhooks.create_webhook repo_id (sanitize env url) secret content_type active)
      on_error wrap_error (create_webhook_events id events))

  -- Backend.UpdateWebhook
  unfoldable pub update_webhook : ℕ → ℕ → Text → ℕ → Text → List Event → Bool → Exec (Unit {0})
  update_webhook repo_id id url content_type secret updated active = do
    accepted (validate url)
    transaction (do
      on_error wrap_error (update_webhook_by_id repo_id id url secret content_type active)
      current ← on_error wrap_error (get_webhook_events_by_webhook_id id)
      on_error wrap_error (delete_webhook_events_by_id env (to_be_deleted updated current))
      on_error wrap_error (create_webhook_events id (new_events updated current)))
