-- ===== src/Backend/Settings/Laws.antt =====
-- AnonAccess after SetAnonAccess (pkg/backend/settings.go).
use soft_serve.Base.{◌≡◌, refl, ◌⊎◌, inl, inr, zero, suc, some, Text, arith}
use soft_serve.Base.Int.{pos, negsuc}
use soft_serve.Access.{AccessLevel, string, parse_access_level}
use soft_serve.Access.Codec.{IsNamed}
use soft_serve.Store.Schema.{Db}
use soft_serve.Store.Exec.{ok, ◌>>=◌, or_else, transaction}
use soft_serve.Store.Settings.{get_anon_access, set_anon_access}
use soft_serve.Backend.Settings.{anon_access, set_anon_access_level}

-- Where the table has a row for the anonymous level, AnonAccess after SetAnonAccess returns the
-- level that was set if it is one of the four that have a name, and -1, which is less than all of
-- them, if not.
pub anon_access-set_anon_access_level :
    (level : AccessLevel) (old : Text) (db : Db)
    → db.anon_access ≡ some old
    → (IsNamed level × ((anon_access (set_anon_access_level level db).1).0 ≡ ok level))
      ⊎ ((¬ IsNamed level) × ((anon_access (set_anon_access_level level db).1).0 ≡ ok (negsuc 0)))
unfolding anon_access set_anon_access_level get_anon_access set_anon_access or_else transaction
    ◌>>=◌ parse_access_level string
anon_access-set_anon_access_level (pos zero) old db h = inl ((0, refl, omega arith), rw h)
anon_access-set_anon_access_level (pos (suc zero)) old db h = inl ((1, refl, omega arith), rw h)
anon_access-set_anon_access_level (pos (suc (suc zero))) old db h =
    inl ((2, refl, omega arith), rw h)
anon_access-set_anon_access_level (pos (suc (suc (suc zero)))) old db h =
    inl ((3, refl, omega arith), rw h)
anon_access-set_anon_access_level (pos (suc (suc (suc (suc n))))) old db h =
    inr ((λ k. ground arith), rw h)
anon_access-set_anon_access_level (negsuc n) old db h = inr ((λ k. ground arith), rw h)
