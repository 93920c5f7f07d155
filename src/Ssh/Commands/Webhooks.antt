-- ===== src/Ssh/Commands/Webhooks.antt =====
-- pkg/ssh/cmd/webhooks.go. The validator of URLs, uuid.Parse, and sending a delivery again, with the
-- test that its body is JSON, are arguments; the ages of the rows are left out of the tables.
pub mod Exposed
use soft_serve.Base.{
  ℕ, Bool, Option, none, some, List, [], ◌∷◌, ◌++◌, map, Text, str, text_eq, leb, ltb, ◌&&◌,
  if◌then◌else◌,
}
use soft_serve.Base.Int.{ℤ, pos, negsuc}
use soft_serve.Env.{Env}
use soft_serve.Names.{sanitize, to_lower}
use soft_serve.Webhook.{UrlError}
use soft_serve.Webhook.Event.{
  Event, event_string, parse_event, content_type_json, content_type_form,
}
use soft_serve.Store.Schema.{Webhook, WebhookDelivery, Repo}
use soft_serve.Store.Exec.{invalid_argument, record_not_found}
use soft_serve.Store.Lfs.{trim_space}
use soft_serve.Store.Webhooks.{DeliveryRow}
use soft_serve.System.{Sys, ◌>>=◌, ◌>>◌, pure, raise, on_db}
use soft_serve.System.Cache.{Lru}
use soft_serve.Backend.Lifecycle
use soft_serve.Backend.Lifecycle.{Machine}
use soft_serve.Backend.Webhooks
use soft_serve.Backend.Webhooks.{Hook}
use soft_serve.Web.Decimal.{decimal}
use soft_serve.Ssh.Session.{Server, Session, check_if_admin}
use soft_serve.Ssh.Commands.Parse.{parse_bool, parse_int, show_bool}
use soft_serve.Ssh.Commands.{Output, silent}

-- the flags of `webhook update`; an empty one is not given
pub record Flags : Type 0 where
  pub events : List Text
  pub secret : Text
  pub active : Text
  pub content_type : Text
  pub url : Text

-- The commands below `webhook`
pub data WebhookCommand : Type 0 where
  list : (repo : Text) → WebhookCommand
  create :
      (repo url : Text) (events : List Text) (secret : Text) (active : Bool) (content_type : Text)
      → WebhookCommand
  delete : (repo id : Text) → WebhookCommand
  update : (repo id : Text) (flags : Flags) → WebhookCommand
  deliveries_list : (repo id : Text) → WebhookCommand
  deliveries_redeliver deliveries_get : (repo id delivery_id : Text) → WebhookCommand

-- the first argument of a command
abbrev pub hook_repo : WebhookCommand → Text
hook_repo (list repo) = repo
hook_repo (create repo url events secret active content_type) = repo
hook_repo (delete repo id) = repo
hook_repo (update repo id flags) = repo
hook_repo (deliveries_list repo id) = repo
hook_repo (deliveries_redeliver repo id delivery_id) = repo
hook_repo (deliveries_get repo id delivery_id) = repo

-- strings.Join with a comma
unfoldable pub join_commas : List Text → Text
join_commas [] = []
join_commas (w ∷ []) = w
join_commas (w ∷ v ∷ ws) = w ++ b',' ∷ join_commas (v ∷ ws)

-- a flag that keeps the old value if it is empty
abbrev given_or : Text → Text → Text
given_or old [] = old
given_or old (c ∷ s) = c ∷ s

-- the lines of a delivery; headers and bodies are not split
abbrev pub shown_delivery : WebhookDelivery → Output
shown_delivery d =
    d.id
    ∷ event_string d.event
    ∷ d.request_url
    ∷ d.request_method
    ∷ d.request_error
    ∷ d.request_headers
    ∷ d.request_body
    ∷ decimal d.response_status
    ∷ d.response_headers
    ∷ d.response_body
    ∷ []

unfoldable pub delivery_rows : List DeliveryRow → Output
unfolding event_string
delivery_rows [] = []
delivery_rows (d ∷ ds) =
    (if leb 200 d.response_status && ltb d.response_status 300 then str "✅" else str "❌")
    ∷ d.id
    ∷ event_string d.event
    ∷ delivery_rows ds

module _ (env : Env) where
  unfoldable pub hook_rows : List Hook → Output
  unfolding event_string decimal join_commas
  hook_rows [] = []
  hook_rows (h ∷ hs) =
      decimal h.webhook.id
      ∷ sanitize env h.webhook.url
      ∷ join_commas (map event_string h.events)
      ∷ show_bool h.webhook.active
      ∷ hook_rows hs

module _ {C : Type 0} where
  -- the loop over the names of events
  unfoldable pub parse_events : List Text → Sys C (List Event)
  unfolding parse_event
  parse_events [] = pure []
  parse_events (s ∷ ss) = elim (parse_event s) [
    | none ↦ raise invalid_argument
    | some e ↦ do es ← parse_events ss; pure (e ∷ es)
  ]

  -- an id that is read; no row has a negative id, for which `missing` is the outcome
  abbrev with_id : Option ℤ → Sys C Output → (ℕ → Sys C Output) → Sys C Output
  with_id none missing f = raise invalid_argument
  with_id (some (pos id)) missing f = f id
  with_id (some (negsuc n)) missing f = missing

  abbrev with_uuid : Option Text → (Text → Sys C Output) → Sys C Output
  with_uuid none f = raise invalid_argument
  with_uuid (some id) f = f id

  -- a flag that is a Boolean, with the old value
  abbrev active_or : Bool → Text → Sys C Bool
  active_or old [] = pure old
  active_or old (c ∷ s) = elim (parse_bool (c ∷ s)) [
    | none ↦ raise invalid_argument
    | some b ↦ pure b
  ]

  abbrev events_or : List Event → List Text → Sys C (List Event)
  events_or old [] = pure old
  events_or old (s ∷ ss) = parse_events (s ∷ ss)

module _ {C : Type 0} (env : Env) where
  abbrev content_type_of : Text → Sys C ℕ
  content_type_of s =
      let t = to_lower env (trim_space s) in
      if text_eq t (str "json")
      then pure content_type_json
      else if text_eq t (str "form")
      then pure content_type_form
      else raise invalid_argument

  abbrev content_type_or : ℕ → Text → Sys C ℕ
  content_type_or old [] = pure old
  content_type_or old (c ∷ s) = content_type_of (c ∷ s)

module _ {C : Type 0} (env : Env) (lru : Lru C) (m : Machine) (server : Server)
    (validate : Text → Option UrlError) (parse_uuid : Text → Option Text)
    (send : Webhook → WebhookDelivery → Sys C (Unit {0})) where
  -- webhookListCommand after its check
  unfoldable pub run_list : Text → Sys C Output
  unfolding hook_rows
  run_list repo = do
    r ← Lifecycle.repository env lru m repo
    hooks ← on_db (Webhooks.list_webhooks r.id)
    pure (hook_rows env hooks)

  -- webhookCreateCommand after its check
  unfoldable pub run_create : Text → Text → List Text → Text → Bool → Text → Sys C Output
  unfolding parse_events trim_space to_lower text_eq
  run_create repo url events secret active content_type = do
    r ← Lifecycle.repository env lru m repo
    evs ← parse_events events
    ct ← content_type_of env content_type
    silent (
        on_db (
          Webhooks.create_webhook env validate r.id (trim_space (sanitize env url)) ct secret evs
            active))

  -- webhookDeleteCommand after its check
  unfoldable pub run_delete : Text → Text → Sys C Output
  unfolding parse_int
  run_delete repo id = do
    r ← Lifecycle.repository env lru m repo
    with_id (parse_int id) (raise record_not_found)
        λ n. silent (on_db (Webhooks.delete_webhook r.id n))

  abbrev update_found : ℕ → ℕ → Flags → Sys C Output
  update_found repo_id id f = do
    h ← on_db (Webhooks.webhook repo_id id)
    active ← active_or h.webhook.active f.active
    ct ← content_type_or env h.webhook.content_type f.content_type
    events ← events_or h.events f.events
    silent (
        on_db (
          Webhooks.update_webhook env validate repo_id id (given_or h.webhook.url f.url) ct
            (given_or h.webhook.secret f.secret) events active))

  -- webhookUpdateCommand after its check
  unfoldable pub run_update : Text → Text → Flags → Sys C Output
  unfolding parse_int parse_bool parse_events trim_space to_lower text_eq
  run_update repo id f = do
    r ← Lifecycle.repository env lru m repo
    with_id (parse_int id) (raise record_not_found) λ n. update_found r.id n f

  -- webhookDeliveriesListCommand after its check
  unfoldable pub run_deliveries_list : Text → Sys C Output
  unfolding parse_int delivery_rows
  run_deliveries_list id =
      with_id (parse_int id) (pure [])
        λ n. do ds ← on_db (Webhooks.list_webhook_deliveries n); pure (delivery_rows ds)

  -- webhookDeliveriesRedeliverCommand after its check
  unfoldable pub run_deliveries_redeliver : Text → Text → Text → Sys C Output
  unfolding parse_int
  run_deliveries_redeliver repo id delivery_id = do
    r ← Lifecycle.repository env lru m repo
    with_id (parse_int id) (with_uuid (parse_uuid delivery_id) λ u. raise record_not_found) λ n.
        with_uuid (parse_uuid delivery_id)
          λ u. do (h, d) ← on_db (Webhooks.find_delivery r.id n u); silent (send h d)

  -- webhookDeliveriesGetCommand after its check
  unfoldable pub run_deliveries_get : Text → Text → Sys C Output
  unfolding parse_int decimal event_string
  run_deliveries_get id delivery_id =
      with_id (parse_int id) (with_uuid (parse_uuid delivery_id) λ u. raise record_not_found) λ n.
        with_uuid (parse_uuid delivery_id)
          λ u. do d ← on_db (Webhooks.webhook_delivery n u); pure (shown_delivery d)

  -- the commands after their check
  unfoldable pub run_hook_checked : WebhookCommand → Sys C Output
  unfolding run_list run_create run_delete run_update run_deliveries_list run_deliveries_redeliver
      run_deliveries_get
  run_hook_checked (list repo) = run_list repo
  run_hook_checked (create repo url events secret active content_type) =
      run_create repo url events secret active content_type
  run_hook_checked (delete repo id) = run_delete repo id
  run_hook_checked (update repo id flags) = run_update repo id flags
  run_hook_checked (deliveries_list repo id) = run_deliveries_list id
  run_hook_checked (deliveries_redeliver repo id delivery_id) =
      run_deliveries_redeliver repo id delivery_id
  run_hook_checked (deliveries_get repo id delivery_id) = run_deliveries_get id delivery_id

  -- webhookCommand: every command has the same check
  unfoldable pub run_webhook : Session → WebhookCommand → Sys C Output
  run_webhook s c = check_if_admin env lru m server s (hook_repo c) >> run_hook_checked c
