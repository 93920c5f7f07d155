-- ===== src/Backend.antt =====
-- pkg/backend: the operations that the servers call, each over the stores in a transaction.
pub mod Users
pub mod Repos
pub mod Collabs
pub mod Tokens
pub mod Settings
pub mod Webhooks
pub mod Access
pub mod Hosted
pub mod Lifecycle
