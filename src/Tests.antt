-- ===== src/Tests.antt =====
-- The theorems at concrete inputs.
mod Data
mod Names
mod Store
mod Backend
mod Web
mod Task
mod Ssh
mod Lifecycle
mod Lfs
mod Commands
mod Grpc
mod Webhooks
