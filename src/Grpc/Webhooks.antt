-- ===== src/Grpc/Webhooks.antt =====
-- pkg/grpc/server.go: the methods on webhooks; `validate` is ValidateWebhookURL.
use soft_serve.Base.{
  ℕ, ◌==◌, Bool, Option, none, some, List, [], ◌∷◌, map, Text, str, text_eq, if◌then◌else◌,
}
use soft_serve.Env.{Env}
use soft_serve.Webhook.{UrlError}
use soft_serve.Webhook.Event.{
  Event, event_string, parse_event, content_type_json, content_type_form,
}
use soft_serve.Store.Schema.{Repo}
use soft_serve.System.{on_db}
use soft_serve.System.Cache.{Lru}
use soft_serve.Backend.Lifecycle
use soft_serve.Backend.Lifecycle.{Machine}
use soft_serve.Backend.Webhooks
use soft_serve.Backend.Webhooks.{Hook}
use soft_serve.Grpc.{
  Rpc, invalid_argument, not_found, internal, ◌>>=◌, ◌>>◌, pure, fail, calling, required,
}

-- the message Webhook, without the times
pub record WebhookMessage : Type 0 where
  pub id : ℕ
  pub url : Text
  pub content_type : Text
  pub events : List Text
  pub active : Bool

-- CreateWebhookRequest
pub record CreateWebhookRequest : Type 0 where
  pub repo_name : Text
  pub url : Text
  pub content_type : Text
  pub secret : Option Text
  pub events : List Text
  pub active : Bool

-- UpdateWebhookRequest
pub record UpdateWebhookRequest : Type 0 where
  pub repo_name : Text
  pub webhook_id : ℕ
  pub url : Option Text
  pub content_type : Option Text
  pub secret : Option Text
  pub events : List Text
  pub active : Option Bool

-- toProtoWebhook
unfoldable pub to_proto_webhook : Hook → WebhookMessage
unfolding event_string
to_proto_webhook h = record {
  id = h.webhook.id;
  url = h.webhook.url;
  content_type = if h.webhook.content_type == content_type_form then str "form" else str "json";
  events = map event_string h.events;
  active = h.webhook.active;
}

-- "form", or else JSON
abbrev content_type_of : Text → ℕ
content_type_of s = if text_eq s (str "form") then content_type_form else content_type_json

-- the value of an optional field, or the old one
abbrev or_old : {A : Type 0} → A → Option A → A
or_old old none = old
or_old old (some a) = a

module _ {C : Type 0} where
  -- the loop over the names of events
  unfoldable pub parse_events : List Text → Rpc C (List Event)
  unfolding parse_event
  parse_events [] = pure []
  parse_events (s ∷ ss) = elim (parse_event s) [
    | none ↦ fail invalid_argument
    | some e ↦ do es ← parse_events ss; pure (e ∷ es)
  ]

  -- the events of a request, or the old ones if it has none
  abbrev events_or : List Event → List Text → Rpc C (List Event)
  events_or old [] = pure old
  events_or old (s ∷ ss) = parse_events (s ∷ ss)

  -- the last of the webhooks
  unfoldable pub last_hook : List Hook → Rpc C Hook
  last_hook [] = fail internal
  last_hook (h ∷ []) = pure h
  last_hook (h ∷ g ∷ hs) = last_hook (g ∷ hs)

module _ {C : Type 0} (env : Env) (lru : Lru C) (m : Machine)
    (validate : Text → Option UrlError) where
  -- the repository of a request
  abbrev repository_of : Text → Rpc C Repo
  repository_of name = calling not_found (Lifecycle.repository env lru m name)

  -- CreateWebhook
  unfoldable pub create_webhook : CreateWebhookRequest → Rpc C WebhookMessage
  unfolding calling required parse_events last_hook to_proto_webhook text_eq
  create_webhook req = do
    required req.repo_name
    required req.url
    r ← repository_of req.repo_name
    events ← parse_events req.events
    calling internal (
        on_db (
          Webhooks.create_webhook env validate r.id req.url (content_type_of req.content_type)
            (or_old [] req.secret) events req.active))
    hooks ← calling internal (on_db (Webhooks.list_webhooks r.id))
    h ← last_hook hooks
    pure (to_proto_webhook h)

  -- DeleteWebhook
  unfoldable pub delete_webhook : Text → ℕ → Rpc C (Unit {0})
  unfolding calling required
  delete_webhook repo_name webhook_id = do
    required repo_name
    r ← repository_of repo_name
    calling internal (on_db (Webhooks.delete_webhook r.id webhook_id))

  -- GetWebhook
  unfoldable pub get_webhook : Text → ℕ → Rpc C WebhookMessage
  unfolding calling required to_proto_webhook
  get_webhook repo_name webhook_id = do
    required repo_name
    r ← repository_of repo_name
    h ← calling not_found (on_db (Webhooks.webhook r.id webhook_id))
    pure (to_proto_webhook h)

  -- ListWebhooks
  unfoldable pub list_webhooks : Text → Rpc C (List WebhookMessage)
  unfolding calling required to_proto_webhook
  list_webhooks repo_name = do
    required repo_name
    r ← repository_of repo_name
    hooks ← calling internal (on_db (Webhooks.list_webhooks r.id))
    pure (map to_proto_webhook hooks)

  -- UpdateWebhook: a field that the request leaves out keeps its value
  unfoldable pub update_webhook : UpdateWebhookRequest → Rpc C WebhookMessage
  unfolding calling required parse_events to_proto_webhook text_eq
  update_webhook req = do
    required req.repo_name
    r ← repository_of req.repo_name
    h ← calling not_found (on_db (Webhooks.webhook r.id req.webhook_id))
    events ← events_or h.events req.events
    calling internal (
        on_db (
          Webhooks.update_webhook env validate r.id req.webhook_id (or_old h.webhook.url req.url)
            (or_old h.webhook.content_type
              (elim (req.content_type) [ none ↦ none | some s ↦ some (content_type_of s) ]))
            (or_old h.webhook.secret req.secret) events (or_old h.webhook.active req.active)))
    updated ← calling internal (on_db (Webhooks.webhook r.id req.webhook_id))
    pure (to_proto_webhook updated)
