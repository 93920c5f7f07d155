-- ===== src/Webhook/Validator.antt =====
-- pkg/webhook/validator.go: ValidateWebhookURL. Parsing URLs and addresses, and the name service, are
-- arguments.
pub mod Accepted
use soft_serve.Base.{
  ℕ, Bool, not, ◌&&◌, ◌||◌, Option, none, some, List, [], ◌∷◌, any, Text, str, text_eq, has_suffix,
  if◌then◌else◌,
}
use soft_serve.Env.{Env}
use soft_serve.Names.{to_lower}
use soft_serve.Webhook.{UrlError, invalid_url, invalid_scheme, private_ip}
use soft_serve.Webhook.Address.{Ip, is_private_or_internal_ip}

-- the parts of an url.URL that the validator reads
pub record Url : Type 0 where
  pub scheme : Text
  pub hostname : Text

-- url.Parse, net.ParseIP and LookupIPAddr; `none` is an error
pub record Net : Type 0 where
  pub parse_url : Text → Option Url
  pub parse_ip : Text → Option Ip
  pub lookup : Text → Option (List Ip)

module _ (env : Env) where
  -- isLocalhost
  unfoldable pub is_localhost : Text → Bool
  unfolding text_eq has_suffix to_lower
  is_localhost hostname =
      let h = to_lower env hostname in
      text_eq h (str "localhost")
      || text_eq h (str "localhost.localdomain")
      || has_suffix h (str ".localhost")

module _ (env : Env) (net : Net) where
  -- the addresses that a name resolves to
  abbrev pub check_resolved : Option (List Ip) → Option UrlError
  check_resolved none = some invalid_url
  check_resolved (some ips) = if any is_private_or_internal_ip ips then some private_ip else none

  -- a hostname that is an address, or a name
  abbrev pub check_address : Text → Option Ip → Option UrlError
  check_address hostname (some ip) = if is_private_or_internal_ip ip then some private_ip else none
  check_address hostname none = check_resolved (net.lookup hostname)

  abbrev pub check_hostname : Text → Option UrlError
  check_hostname hostname =
      if text_eq hostname []
      then some invalid_url
      else if is_localhost env hostname
      then some private_ip
      else check_address hostname (net.parse_ip hostname)

  abbrev pub check_url : Option Url → Option UrlError
  check_url none = some invalid_url
  check_url (some u) =
      if not (text_eq u.scheme (str "http")) && not (text_eq u.scheme (str "https"))
      then some invalid_scheme
      else check_hostname u.hostname

  -- ValidateWebhookURL; `none` is the verdict nil
  unfoldable pub validate_webhook_url : Text → Option UrlError
  unfolding text_eq is_localhost is_private_or_internal_ip
  validate_webhook_url [] = some invalid_url
  validate_webhook_url (c ∷ s) = check_url (net.parse_url (c ∷ s))

  -- ValidateIPBeforeDial
  unfoldable pub validate_ip_before_dial : Ip → Option UrlError
  unfolding is_private_or_internal_ip
  validate_ip_before_dial ip = if is_private_or_internal_ip ip then some private_ip else none
