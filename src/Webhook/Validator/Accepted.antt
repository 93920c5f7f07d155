-- ===== src/Webhook/Validator/Accepted.antt =====
-- What ValidateWebhookURL of pkg/webhook/validator.go accepts.
use soft_serve.Base.{
  ◌≡◌, refl, ◌⊎◌, false, Option, none, some, List, [], ◌∷◌, All, any, Text, str, text_eq_iff, arith,
}
use soft_serve.Env.{Env}
use soft_serve.Webhook.Address.{Ip, is_private_or_internal_ip}
use soft_serve.Webhook.Validator.{
  Url, Net, is_localhost, check_resolved, check_address, check_url, validate_webhook_url,
}

-- the addresses that a hostname stands for, if any: itself, or what the name service says
abbrev pub addresses : Net → Text → Option (List Ip)
addresses net hostname = elim (net.parse_ip hostname) [
  | some ip ↦ some (ip ∷ [])
  | none ↦ net.lookup hostname
]

module _ (env : Env) (net : Net) where
  -- a URL whose target is allowed
  pub record IsAllowed (url : Text) : Type 0 where
    pub parsed : Url
    pub ips : List Ip
    pub parses : net.parse_url url ≡ some parsed
    pub web : (parsed.scheme ≡ str "http") ⊎ (parsed.scheme ≡ str "https")
    pub remote : is_localhost env parsed.hostname ≡ false
    pub resolves : addresses net parsed.hostname ≡ some ips
    pub public : All (λ ip. is_private_or_internal_ip ip ≡ false) ips

  rejects_none :
      (ips : List Ip)
      → any is_private_or_internal_ip ips ≡ false
      → All (λ ip. is_private_or_internal_ip ip ≡ false) ips
  rejects_none [] h = tt
  rejects_none (ip ∷ ips) h = (ground arith, rejects_none ips (ground arith))

  resolved_lem :
      (found : Option (List Ip))
      → check_resolved env net found ≡ none
      → (ips : List Ip) × (found ≡ some ips) × All (λ ip. is_private_or_internal_ip ip ≡ false) ips
  resolved_lem none h = absurd (ground (arith, h))
  resolved_lem (some ips) h = (ips, refl, rejects_none ips (ground (arith, h)))

  address_lem :
      (hostname : Text) (ip : Option Ip)
      → check_address env net hostname ip ≡ none
      → (ips : List Ip) × (elim ip [ some a ↦ some (a ∷ []) | none ↦ net.lookup hostname ]
          ≡ some ips)
        × All (λ a. is_private_or_internal_ip a ≡ false) ips
  address_lem hostname none h = resolved_lem (net.lookup hostname) h
  address_lem hostname (some ip) h = (ip ∷ [], refl, (ground (arith, h), tt))

  url_lem :
      (url : Text) (u : Option Url)
      → net.parse_url url ≡ u
      → check_url env net u ≡ none
      → IsAllowed url
  url_lem url none e h = absurd (ground (arith, h))
  url_lem url (some u) e h =
      let (ips, resolves, public) =
        address_lem u.hostname (net.parse_ip u.hostname) (ground (arith, h)) in
      record {
        parsed = u;
        ips = ips;
        parses = e;
        web =
            ground
              (arith, h, text_eq_iff u.scheme (str "http"), text_eq_iff u.scheme (str "https"));
        remote = ground (arith, h);
        resolves = resolves;
        public = public;
      }

  -- A URL that ValidateWebhookURL accepts parses, with the scheme http or https and a hostname that is
  -- no name of the local host and that stands for addresses none of which is private or internal.
  pub validate_webhook_url-IsAllowed :
      (url : Text) → validate_webhook_url env net url ≡ none → IsAllowed url
  unfolding validate_webhook_url
  validate_webhook_url-IsAllowed [] h = absurd (ground (arith, h))
  validate_webhook_url-IsAllowed (c ∷ s) h = url_lem (c ∷ s) (net.parse_url (c ∷ s)) refl h
