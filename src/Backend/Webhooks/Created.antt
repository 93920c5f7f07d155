-- ===== src/Backend/Webhooks/Created.antt =====
-- CreateWebhook of pkg/backend/webhooks.go, and the webhook that it leaves.
use soft_serve.Base.{ℕ, ◌==◌, Bool, List, map, select, Text}
use soft_serve.Env.{Env}
use soft_serve.Webhook.Event.{Event}
use soft_serve.Store.Schema.{Webhook, WebhookEvent}
use soft_serve.Store.Webhooks as Stored
use soft_serve.Backend.Webhooks.{event_of}

-- the events of a webhook, as numbers
abbrev numbers : ℕ → List WebhookEvent → List Event
numbers id rows = map event_of (select (λ e. e.webhook_id == id) rows)

module _ (repo_id : ℕ) (url secret : Text) (content_type : ℕ) (active : Bool) where
  -- the row of a new webhook
  abbrev pub new_row : ℕ → Webhook
  new_row id = record {
    id = id;
    repo_id = repo_id;
    url = url;
    secret = secret;
    content_type = content_type;
    active = active;
  }
