-- ===== src/Tests/Webhooks.antt =====
-- Webhooks at concrete inputs.
use soft_serve.Base.{
  ℕ, ◌≡◌, refl, Bool, true, false, ◌&&◌, ◌==◌, Option, none, some, [], ◌∷◌, List, any, Text, str,
  text_eq, ◌<◌, arith, if◌then◌else◌, find,
}
use soft_serve.Names.{sanitize}
use soft_serve.Store.Schema.{Webhook, WebhookEvent, WebhookDelivery, Db}
use soft_serve.Store.Exec.{Error, Result, ok, err}
use soft_serve.System.{World, pure}
use soft_serve.Webhook.{UrlError, invalid_url}
use soft_serve.Webhook.Address.{Ip4, is_private_or_internal_ip}
use soft_serve.Webhook.Address.Blocks.{
  bytes, mapped, reserved, within, is_private_or_internal_ip-reserved,
}
use soft_serve.Webhook.Validator.{Net, validate_webhook_url}
use soft_serve.Webhook.Validator.Accepted.{IsAllowed, validate_webhook_url-IsAllowed}
use soft_serve.Backend.Webhooks.{create_webhook, update_webhook}
use soft_serve.Backend.Webhooks.Laws.{update_webhook-keeps_events}
use soft_serve.Backend.Webhooks.Created.{new_row}
use soft_serve.Ssh.Commands.Webhooks.{deliveries_get, shown_delivery, run_webhook}
use soft_serve.Ssh.Session.Checks.{with_cache}
use soft_serve.Ssh.Commands.Webhooks.Exposed.{run_webhook-any_delivery}
use soft_serve.Tests.Data.{env, db, bob_session}
use soft_serve.Tests.Lifecycle.{Memory, memory, machine}
use soft_serve.Tests.Commands.{server, by_bob, ann_repo, owner_world}

abbrev internal : Ip4
internal = record { a = 172; b = 20; c = 1; d = 1 }

is_private_or_internal_ip-reserved_example :
    (is_private_or_internal_ip (bytes internal) ≡ any (within internal) reserved)
    × (is_private_or_internal_ip (mapped internal) ≡ any (within internal) reserved)
is_private_or_internal_ip-reserved_example =
    is_private_or_internal_ip-reserved internal
      (record { a = omega arith; b = omega arith; c = omega arith; d = omega arith })

-- a name service that knows one name
abbrev net : Net
net = record {
  parse_url = λ s. some (record { scheme = str "https"; hostname = str "x.y" });
  parse_ip = λ s. none;
  lookup = λ s. some ((8 ∷ 8 ∷ 8 ∷ 8 ∷ []) ∷ []);
}

accepted_run : validate_webhook_url env net (str "https://x.y/z") ≡ none
unfolding is_private_or_internal_ip validate_webhook_url
accepted_run = refl

validate_webhook_url-IsAllowed_example : IsAllowed env net (str "https://x.y/z")
validate_webhook_url-IsAllowed_example =
    validate_webhook_url-IsAllowed env net (str "https://x.y/z") accepted_run

abbrev validate : Text → Option UrlError
validate s = if text_eq s [] then some invalid_url else none

abbrev hook : Webhook
hook = new_row 1 (str "u") (str "k") 0 true 1

abbrev pushed : WebhookEvent
pushed = record { id = 1; webhook_id = 1; event = 4 }

abbrev delivery : WebhookDelivery
delivery = record {
  id = str "d";
  webhook_id = 1;
  event = 4;
  request_url = str "u";
  request_method = str "POST";
  request_error = [];
  request_headers = str "h";
  request_body = str "{}";
  response_status = 200;
  response_headers = str "g";
  response_body = [];
}

abbrev hooked : Db
hooked = record db {
  webhooks = hook ∷ [];
  next_webhook = 2;
  webhook_events = pushed ∷ [];
  next_event = 2;
  webhook_deliveries = delivery ∷ [];
}

abbrev created : Db
created = (create_webhook env validate 1 (str "u") 0 (str "k") (4 ∷ 5 ∷ []) true db).1

update_webhook-keeps_events_example :
    (e : Error) × (update_webhook env validate 1 1 (str "v") 0 (str "k") (4 ∷ 5 ∷ []) true hooked
      ≡ (err e, hooked))
unfolding text_eq
update_webhook-keeps_events_example =
    update_webhook-keeps_events env validate 1 1 (str "v") 0 (str "k") (4 ∷ 5 ∷ []) true hooked refl
      refl (refl, tt)

-- the webhook is on another user's repository
abbrev hooked_world : World Memory
hooked_world = record owner_world {
  db = record (owner_world.db) {
    webhooks = hook ∷ [];
    next_webhook = 2;
    webhook_events = pushed ∷ [];
    next_event = 2;
    webhook_deliveries = delivery ∷ [];
  };
}

run_webhook-any_delivery_example :
    (c : Memory) × (run_webhook env memory machine server validate some
        (λ h d. pure tt)
        by_bob
        (deliveries_get (str "ann") (str "1") (str "d"))
        hooked_world
      ≡ (ok (shown_delivery delivery), with_cache hooked_world c))
unfolding text_eq soft_serve.Backend.Repos.repository soft_serve.System.Disk.exists
    soft_serve.Names.repo_path soft_serve.Paths.join_below soft_serve.Paths.resolve_all
    soft_serve.Paths.split soft_serve.Names.sanitize_repo soft_serve.Base.trim_suffix
    soft_serve.Paths.clean_rooted soft_serve.Paths.join soft_serve.Base.trim_prefix sanitize
    soft_serve.Store.Exec.on_error soft_serve.Store.Exec.transaction
    soft_serve.Store.Repos.get_repo_by_name soft_serve.Store.Exec.get_one
    soft_serve.Ssh.Commands.Parse.parse_int
run_webhook-any_delivery_example =
    run_webhook-any_delivery env memory machine server validate some (λ h d. pure tt) (str "key")
      bob_session (str "ann") (str "1") (str "d") (str "d") 1 ann_repo delivery hooked_world refl
      refl refl refl refl
