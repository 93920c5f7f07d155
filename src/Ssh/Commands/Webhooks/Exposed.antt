-- ===== src/Ssh/Commands/Webhooks/Exposed.antt =====
-- The deliveries of webhooks that the commands of pkg/ssh/cmd/webhooks.go show.
use soft_serve.Base.{◌≡◌, refl, ℕ, true, ◌&&◌, ◌==◌, some, none, find, Option, Text, text_eq}
use soft_serve.Base.Int.{pos}
use soft_serve.Env.{Env}
use soft_serve.Names.{sanitize_repo}
use soft_serve.Webhook.{UrlError}
use soft_serve.Store.Schema.{Repo, Webhook, WebhookDelivery}
use soft_serve.Store.Exec
use soft_serve.Store.Exec.{ok, on_error, transaction}
use soft_serve.Store.Webhooks.{get_webhook_delivery_by_id}
use soft_serve.System.{World, Sys, ◌>>=◌, pure, on_db}
use soft_serve.System.Cache.{Lru}
use soft_serve.Backend.Users.{ProtoUser}
use soft_serve.Backend.Access.Decide.{repo_of}
use soft_serve.Backend.Lifecycle.{Machine}
use soft_serve.Backend.Hosted.{host_of}
use soft_serve.Backend.Webhooks.{webhook_delivery}
use soft_serve.Ssh.Session.{Server}
use soft_serve.Ssh.Session.Checks.{with_cache}
use soft_serve.Ssh.Commands.Parse.{parse_int}
use soft_serve.Ssh.Commands.Gaps.{owner_passes}
use soft_serve.Ssh.Commands.Webhooks.{
  deliveries_get, shown_delivery, run_webhook, run_hook_checked, run_deliveries_get,
}

module _ {C : Type 0} (env : Env) (lru : Lru C) (m : Machine) (server : Server)
    (validate : Text → Option UrlError) (parse_uuid : Text → Option Text)
    (send : Webhook → WebhookDelivery → Sys C (Unit {0})) where
  -- Whoever owns a repository gets, by `webhook deliveries get` on it, any delivery of any webhook of the
  -- server, with its headers and bodies: the repository of the webhook does not matter.
  -- Of the state only the cache may change.
  pub run_webhook-any_delivery :
      (key : Text) (u : ProtoUser) (repo id delivery_id uuid : Text) (n : ℕ) (r : Repo)
      (d : WebhookDelivery) (w : World C)
      → repo_of env (host_of lru m w) w.db none (sanitize_repo env repo) ≡ some r
      → (r.user_id == u.user.id) ≡ true
      → parse_int id ≡ some (pos n)
      → parse_uuid delivery_id ≡ some uuid
      → find (λ x. x.webhook_id == n && text_eq x.id uuid) w.db.webhook_deliveries ≡ some d
      → (c : C) × (run_webhook env lru m server validate parse_uuid send
            (record { key = key; user = some u })
            (deliveries_get repo id delivery_id)
            w
          ≡ (ok (shown_delivery d), with_cache w c))
  unfolding run_webhook run_hook_checked run_deliveries_get ◌>>=◌ on_db pure webhook_delivery
      get_webhook_delivery_by_id on_error transaction Exec.◌>>=◌
  run_webhook-any_delivery key u repo id delivery_id uuid n r d w found mine read parsed there =
      let (c, passes) = owner_passes env lru m server key u repo r w found mine in
      (c, rw (passes, read, parsed, there) refl)
