-- ===== src/Store/Webhooks/Consistency.antt =====
-- The writes of pkg/store/database/webhooks.go, and the consistency of the tables.
use soft_serve.Base.{
  ℕ, ◌<◌, ◌≡◌, refl, Bool, true, false, not, ◌&&◌, Option, none, some, List, [], ◌∷◌, Text, text_eq,
  text_eq_iff, All, All-append, All-select, All-update, any, contains, select, update, arith, ◌==◌,
  Bool-cases, inl, inr,
}
use soft_serve.Env.{Env}
use soft_serve.Store.Found.{update_none}
use soft_serve.Store.Schema.{Webhook, WebhookEvent, WebhookDelivery, Db, repo_ids}
use soft_serve.Store.Exec.{exec}
use soft_serve.Store.Exec.Preserves.{
  Preserves, Preserves-exec, Preserves-pure, Preserves-bind, Preserves-raise,
}
use soft_serve.Store.Rows.{
  Distinct, Distinct-append, Distinct-select, Distinct-update, Refers-insert, Refers-update,
}
use soft_serve.Store.Consistent.{IsConsistent, same_webhook, same_webhook_id}
use soft_serve.Store.Consistent.Statements.{
  Preserves-checked, Preserves-inserted, ids_below_fresh, ids_below_next, IsNumbered-append,
  IsNumbered-select,
}
use soft_serve.Store.Consistent.Deletes.{delete_webhooks-IsConsistent}
use soft_serve.Store.Webhooks.{
  is_hook, create_webhook, create_webhook_delivery, insert_event, create_webhook_events,
  delete_events, delete_webhook_events_by_id, update_webhook_by_id,
}

pub create_webhook-IsConsistent :
    (repo_id : ℕ) (url secret : Text) (content_type : ℕ) (active : Bool)
    → Preserves IsConsistent (create_webhook repo_id url secret content_type active)
unfolding create_webhook
create_webhook-IsConsistent repo_id url secret content_type active =
    Preserves-inserted _ _ _ _ _ λ db fresh owned h.
      let w : Webhook = record {
        id = db.next_webhook;
        repo_id = repo_id;
        url = url;
        secret = secret;
        content_type = content_type;
        active = active;
      } in
      assumption (
        Distinct-append _ db.webhooks w fresh h.webhook_urls,
        Distinct-append _ db.webhooks w
            (ids_below_fresh (λ s. s.id) db.next_webhook db.webhooks h.webhook_ids_below)
            h.webhook_ids_distinct,
        ids_below_next (λ s. s.id) db.next_webhook db.webhooks w refl h.webhook_ids_below,
        All-append _ db.webhooks (w ∷ []) h.webhook_repo (owned, tt),
        Refers-insert (λ e. e.webhook_id) (λ s. s.id) db.webhooks w db.webhook_events
            h.event_webhook,
        Refers-insert (λ d. d.webhook_id) (λ s. s.id) db.webhooks w db.webhook_deliveries
            h.delivery_webhook,
      )

pub create_webhook_delivery-IsConsistent :
    (delivery : WebhookDelivery) → Preserves IsConsistent (create_webhook_delivery delivery)
unfolding create_webhook_delivery
create_webhook_delivery-IsConsistent delivery = Preserves-inserted _ _ _ _ _ λ db fresh owned h.
    assumption (
      Distinct-append _ db.webhook_deliveries delivery fresh h.deliveries,
      All-append _ db.webhook_deliveries (delivery ∷ []) h.delivery_webhook (owned, tt),
    )

insert_event-IsConsistent :
    (webhook_id event : ℕ) → Preserves IsConsistent (insert_event webhook_id event)
unfolding insert_event
insert_event-IsConsistent webhook_id event = Preserves-inserted _ _ _ _ _ λ db fresh owned h.
    let e : WebhookEvent = record { id = db.next_event; webhook_id = webhook_id; event = event } in
    assumption (
      Distinct-append _ db.webhook_events e fresh h.events,
      IsNumbered-append (λ r. r.id) db.next_event db.webhook_events e refl h.event_ids,
      All-append _ db.webhook_events (e ∷ []) h.event_webhook (owned, tt),
    )

pub create_webhook_events-IsConsistent :
    (webhook_id : ℕ) (events : List ℕ)
    → Preserves IsConsistent (create_webhook_events webhook_id events)
unfolding create_webhook_events
create_webhook_events-IsConsistent webhook_id [] = Preserves-pure _
create_webhook_events-IsConsistent webhook_id (event ∷ events) =
    Preserves-bind _ _ (insert_event-IsConsistent webhook_id event)
      λ _. create_webhook_events-IsConsistent webhook_id events

pub delete_webhooks_rule :
    (p : Webhook → Bool) → Preserves IsConsistent (exec (soft_serve.Store.Schema.delete_webhooks p))
delete_webhooks_rule p = Preserves-exec _ λ db h. delete_webhooks-IsConsistent {db = db} p h

pub delete_deliveries_rule :
    (p : WebhookDelivery → Bool)
    → Preserves IsConsistent
        (exec (λ db. record db { webhook_deliveries = select p db.webhook_deliveries }))
delete_deliveries_rule p = Preserves-exec _ λ db h. assumption (
  Distinct-select _ p db.webhook_deliveries h.deliveries,
  All-select _ p db.webhook_deliveries h.delivery_webhook,
)

delete_events_rule :
    (p : WebhookEvent → Bool)
    → Preserves IsConsistent
        (exec (λ db. record db { webhook_events = select p db.webhook_events }))
delete_events_rule p = Preserves-exec _ λ db h. assumption (
  Distinct-select _ p db.webhook_events h.events,
  IsNumbered-select (λ r. r.id) db.next_event p db.webhook_events h.event_ids,
  All-select _ p db.webhook_events h.event_webhook,
)

module _ (env : Env) where
  delete_events-IsConsistent :
      (args : Option (List ℕ)) → Preserves IsConsistent (delete_events env args)
  delete_events-IsConsistent none = Preserves-raise _
  delete_events-IsConsistent (some args) = delete_events_rule _

  pub delete_webhook_events_by_id-IsConsistent :
      (ids : List ℕ) → Preserves IsConsistent (delete_webhook_events_by_id env ids)
  unfolding delete_webhook_events_by_id
  delete_webhook_events_by_id-IsConsistent ids = delete_events-IsConsistent (env.sqlx_in ids)

-- an UPDATE of one webhook
module _ (repo_id id : ℕ) (url secret : Text) (content_type : ℕ) (active : Bool) where
  abbrev changed : Webhook → Webhook
  changed h = record h { url = url; secret = secret; content_type = content_type; active = active }

  -- another webhook of the repository with the new URL
  abbrev has_url : Webhook → Bool
  has_url h = h.repo_id == repo_id && text_eq h.url url && not (h.id == id)

  -- the webhook that is changed, and the others
  hit_differs :
      (h : Webhook) (hs : List Webhook)
      → is_hook repo_id id h ≡ true
      → any has_url hs ≡ false
      → All (λ g. same_webhook_id h g ≡ false) hs
      → All (λ g. same_webhook (changed h) g ≡ false) (update (is_hook repo_id id) changed hs)
  hit_differs h [] hit free ids = tt
  hit_differs h (g ∷ hs) hit free ids = (
    ground (arith, hit, free, ids.0, text_eq_iff url g.url, text_eq_iff g.url url),
    hit_differs h hs hit (ground arith) ids.1,
  )

  miss_differs :
      (h : Webhook) (hs : List Webhook)
      → is_hook repo_id id h ≡ false
      → has_url h ≡ false
      → All (λ g. same_webhook h g ≡ false) hs
      → All (λ g. same_webhook h g ≡ false) (update (is_hook repo_id id) changed hs)
  miss_differs h [] miss free urls = tt
  miss_differs h (g ∷ hs) miss free urls = (
    ground (arith, miss, free, urls.0, text_eq_iff h.url url),
    miss_differs h hs miss free urls.1,
  )

  Distinct-changed :
      (hs : List Webhook)
      → any has_url hs ≡ false
      → Distinct same_webhook_id hs
      → Distinct same_webhook hs
      → Distinct same_webhook (update (is_hook repo_id id) changed hs)
  Distinct-changed [] free ids urls = tt
  Distinct-changed (h ∷ hs) free ids urls = elim (Bool-cases (is_hook repo_id id h)) [
    | inl hit ↦
        rw hit (
          hit_differs h hs hit (ground arith) ids.0,
          Distinct-changed hs (ground arith) ids.1 urls.1,
        )
    | inr miss ↦ rw miss (
      miss_differs h hs miss (ground arith) urls.0,
      Distinct-changed hs (ground arith) ids.1 urls.1,
    )
  ]

  -- the UPDATE of a webhook, once its constraint has passed
  Distinct-update_webhook :
      (hs : List Webhook)
      → (any (is_hook repo_id id) hs && any has_url hs) ≡ false
      → Distinct same_webhook_id hs
      → Distinct same_webhook hs
      → Distinct same_webhook (update (is_hook repo_id id) changed hs)
  Distinct-update_webhook hs pass ids urls = elim (Bool-cases (any (is_hook repo_id id) hs)) [
    | inl some' ↦ Distinct-changed hs (ground arith) ids urls
    | inr none' ↦ rw (update_none (is_hook repo_id id) changed hs none') urls
  ]

  pub update_webhook_by_id-IsConsistent :
      Preserves IsConsistent (update_webhook_by_id repo_id id url secret content_type active)
  unfolding update_webhook_by_id
  update_webhook_by_id-IsConsistent = Preserves-checked _ _ _ _ λ db pass h.
      let p = is_hook repo_id id in
      assumption (
        Distinct-update_webhook db.webhooks pass h.webhook_ids_distinct h.webhook_urls,
        Distinct-update same_webhook_id p changed (λ g k. refl) (λ g k. refl) db.webhooks
            h.webhook_ids_distinct,
        All-update (λ g. g.id < db.next_webhook) p changed db.webhooks (λ g b. b)
            h.webhook_ids_below,
        All-update (λ g. contains (repo_ids db) g.repo_id ≡ true) p changed db.webhooks (λ g b. b)
            h.webhook_repo,
        Refers-update (λ e. e.webhook_id) (λ g. g.id) p changed db.webhooks db.webhook_events
            (λ g. refl) h.event_webhook,
        Refers-update (λ d. d.webhook_id) (λ g. g.id) p changed db.webhooks db.webhook_deliveries
            (λ g. refl) h.delivery_webhook,
      )
