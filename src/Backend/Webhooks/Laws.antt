-- ===== src/Backend/Webhooks/Laws.antt =====
-- CreateWebhook and UpdateWebhook of pkg/backend/webhooks.go.
use soft_serve.Base.{
  ℕ, ◌<◌, ◌==◌, ◌≡◌, refl, sym, ap, ◌∙◌, Bool, true, false, not, ◌&&◌, ◌||◌, any, contains, find,
  Option, none, some, List, [], ◌∷◌, ◌++◌, map, select, Text, All, arith, Bool-cases, inl, inr,
}
use soft_serve.Env.{Env}
use soft_serve.Webhook.{UrlError}
use soft_serve.Webhook.Event.{Event}
use soft_serve.Store.Schema.{WebhookEvent, Db}
use soft_serve.Store.Exec.{
  Error, err, ◌>>=◌, on_error, transaction, checked, duplicate_key, query_error,
}
use soft_serve.Store.Webhooks.{
  update_webhook_by_id, is_hook, get_webhook_events_by_webhook_id, delete_webhook_events_by_id,
}
use soft_serve.Backend.Webhooks.{to_be_deleted, update_webhook}

-- the events of a webhook
abbrev pub events_of : ℕ → Db → List WebhookEvent
events_of id db = select (λ e. e.webhook_id == id) db.webhook_events

nothing_deleted :
    (updated : List Event) (current : List WebhookEvent)
    → All (λ e. any (λ ne. ne == e.event) updated ≡ true) current
    → to_be_deleted updated current ≡ []
nothing_deleted updated [] h = refl
nothing_deleted updated (e ∷ es) h = rw (h.0, nothing_deleted updated es h.1)

module _ (env : Env) (validate : Text → Option UrlError) where
  -- UpdateWebhook with a URL that is accepted and with events among which are all that the webhook has
  -- returns an error and changes nothing, because sqlx.In refuses an empty slice.
  pub update_webhook-keeps_events :
      (repo_id id : ℕ) (url : Text) (content_type : ℕ) (secret : Text) (updated : List Event)
      (active : Bool) (db : Db)
      → validate url ≡ none
      → env.sqlx_in [] ≡ none
      → All (λ e. any (λ ne. ne == e.event) updated ≡ true) (events_of id db)
      → (e : Error) × (update_webhook env validate repo_id id url content_type secret updated active
            db
          ≡ (err e, db))
  unfolding update_webhook on_error transaction ◌>>=◌ update_webhook_by_id
      get_webhook_events_by_webhook_id delete_webhook_events_by_id checked
  update_webhook-keeps_events repo_id id url content_type secret updated active db good empty kept =
      elim (Bool-cases (
        any (is_hook repo_id id) db.webhooks
        && any (λ h. h.repo_id == repo_id && soft_serve.Base.text_eq h.url url && not (h.id == id))
            db.webhooks)) [
              | inl taken ↦ (duplicate_key, rw (good, taken) refl)
              | inr free ↦ (
                query_error,
                rw (good, free, nothing_deleted updated (events_of id db) kept, empty) refl,
              )
            ]
