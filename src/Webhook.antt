-- ===== src/Webhook.antt =====
-- pkg/webhook: the addresses that a webhook may name, the events and the content types.
pub mod Address
pub mod Validator
pub mod Event

-- the errors of the validator
pub data UrlError : Type 0 where
  invalid_url invalid_scheme private_ip : UrlError
