-- ===== src/Backend/Settings.antt =====
-- pkg/backend/settings.go
pub mod Laws
use soft_serve.Base.{Bool, false}
use soft_serve.Access.{AccessLevel, no_access}
use soft_serve.Store.Exec.{Exec, or_else, transaction}
use soft_serve.Store.Settings.{
  get_allow_keyless_access, get_anon_access, set_allow_keyless_access, set_anon_access,
}

-- Backend.AllowKeyless
unfoldable pub allow_keyless : Exec Bool
allow_keyless = or_else false (transaction get_allow_keyless_access)

-- Backend.SetAllowKeyless
unfoldable pub set_allow_keyless : Bool → Exec (Unit {0})
set_allow_keyless allow = transaction (set_allow_keyless_access allow)

-- Backend.AnonAccess
unfoldable pub anon_access : Exec AccessLevel
anon_access = or_else no_access (transaction get_anon_access)

-- Backend.SetAnonAccess
unfoldable pub set_anon_access_level : AccessLevel → Exec (Unit {0})
set_anon_access_level level = transaction (set_anon_access level)
