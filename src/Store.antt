-- ===== src/Store.antt =====
-- The database (pkg/db, pkg/db/models, the schema of pkg/db/migrate) and the stores over it
-- (pkg/store/database).
pub mod Schema
pub mod Exec
pub mod Rows
pub mod Found
pub mod Renames
pub mod Consistent
pub mod Users
pub mod Repos
pub mod Collabs
pub mod Tokens
pub mod Settings
pub mod Lfs
pub mod Webhooks
pub mod Requests
