-- ===== src/Store/Settings.antt =====
-- pkg/store/database/settings.go. An UPDATE works on the rows that are there.
use soft_serve.Base.{Bool}
use mathlib.Core.Option
use soft_serve.Access.{AccessLevel, string, parse_access_level}
use soft_serve.Store.Exec.{Exec, ◌>>=◌, pure, gets, one, exec}

-- GetAllowKeylessAccess
unfoldable pub get_allow_keyless_access : Exec Bool
get_allow_keyless_access = do value ← gets (λ db. db.allow_keyless); one value

-- GetAnonAccess
unfoldable pub get_anon_access : Exec AccessLevel
get_anon_access = do
  value ← gets (λ db. db.anon_access)
  level ← one value
  pure (parse_access_level level)

-- SetAllowKeylessAccess
unfoldable pub set_allow_keyless_access : Bool → Exec (Unit {0})
set_allow_keyless_access allow =
    exec (λ db. record db { allow_keyless = Option.map (λ _. allow) db.allow_keyless })

-- SetAnonAccess
unfoldable pub set_anon_access : AccessLevel → Exec (Unit {0})
set_anon_access level =
    exec (λ db. record db { anon_access = Option.map (λ _. string level) db.anon_access })
