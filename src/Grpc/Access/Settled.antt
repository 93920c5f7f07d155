-- ===== src/Grpc/Access/Settled.antt =====
-- GetSettings and UpdateSettings of pkg/grpc/server.go.
use soft_serve.Base.{◌≡◌, refl, zero, suc, Bool, Option, none, some, Text, text_eq}
use soft_serve.Base.Int.{pos, negsuc}
use soft_serve.Access.{string, parse_access_level}
use soft_serve.Store.Schema.{Db}
use soft_serve.Store.Exec
use soft_serve.Store.Settings.{
  get_allow_keyless_access, get_anon_access, set_allow_keyless_access, set_anon_access,
}
use soft_serve.System.{World, on_db}
use soft_serve.Backend.Settings as Backend
use soft_serve.Grpc.{reply, ◌>>=◌, calling, given, ProtoLevel, to_proto_level, to_backend_level}
use soft_serve.Grpc.Access.{UpdateSettingsRequest, get_settings, update_settings}

-- a level as it is answered after it was set: one without a name becomes NO_ACCESS
abbrev pub settled : ProtoLevel → ProtoLevel
settled (pos (suc zero)) = pos 1
settled (pos (suc (suc zero))) = pos 2
settled (pos (suc (suc (suc zero)))) = pos 3
settled (pos (suc (suc (suc (suc zero))))) = pos 4
settled other = pos 1

-- a level goes through the table as it is
stored_level :
    (v : ProtoLevel) → to_proto_level (parse_access_level (string (to_backend_level v))) ≡ settled v
unfolding to_proto_level text_eq parse_access_level string to_backend_level
stored_level (pos zero) = refl
stored_level (pos (suc zero)) = refl
stored_level (pos (suc (suc zero))) = refl
stored_level (pos (suc (suc (suc zero)))) = refl
stored_level (pos (suc (suc (suc (suc zero))))) = refl
stored_level (pos (suc (suc (suc (suc (suc n)))))) = refl
stored_level (negsuc n) = refl

-- the level that is answered, by the request's
answered_level :
    (l : Option ProtoLevel) (level : Text)
    → to_proto_level
        (parse_access_level (elim l [ none ↦ level | some v ↦ string (to_backend_level v) ]))
      ≡ elim l [ none ↦ to_proto_level (parse_access_level level) | some v ↦ settled v ]
answered_level none level = refl
answered_level (some v) level = stored_level v

module _ {C : Type 0} where
  get_settings_lem :
      (allow : Bool) (level : Text) (w : World C)
      → w.db.allow_keyless ≡ some allow
      → w.db.anon_access ≡ some level
      → get_settings w ≡ (
        reply (record {
          allow_keyless = allow;
          anon_access = to_proto_level (parse_access_level level);
        }),
        w,
      )
  unfolding get_settings calling ◌>>=◌ on_db Backend.allow_keyless Backend.anon_access Exec.or_else
      Exec.transaction get_allow_keyless_access get_anon_access Exec.◌>>=◌
  get_settings_lem allow level w keyless anon = rw (keyless, anon)

  updated_settings :
      (a : Option Bool) (l : Option ProtoLevel) (allow : Bool) (level : Text) (w : World C)
      → w.db.allow_keyless ≡ some allow
      → w.db.anon_access ≡ some level
      → (db : Db) × (update_settings (record { allow_keyless = a; anon_access = l }) w
          ≡ get_settings (record w { db = db }))
        × (db.allow_keyless ≡ some (elim a [ none ↦ allow | some v ↦ v ]))
        × (db.anon_access ≡ some (elim l [ none ↦ level | some v ↦ string (to_backend_level v) ]))
  unfolding update_settings calling given ◌>>=◌ on_db Backend.set_allow_keyless
      Backend.set_anon_access_level Exec.transaction set_allow_keyless_access set_anon_access
      Exec.exec
  updated_settings none none allow level w keyless anon = (w.db, refl, keyless, anon)
  updated_settings (some v) none allow level w keyless anon = (_, refl, rw keyless, anon)
  updated_settings none (some l) allow level w keyless anon = (_, refl, keyless, rw anon)
  updated_settings (some v) (some l) allow level w keyless anon = (_, refl, rw keyless, rw anon)

  -- If the table of settings has its two rows, UpdateSettings answers with the settings as they are
  -- afterwards: each one that the request sets has the value of the request, except that a level
  -- without a name is answered as NO_ACCESS, and each one that it does not set is as before.
  pub update_settings-get_settings :
      (req : UpdateSettingsRequest) (allow : Bool) (level : Text) (w : World C)
      → w.db.allow_keyless ≡ some allow
      → w.db.anon_access ≡ some level
      → let (answer, after) = update_settings req w in
        (answer
          ≡ reply (record {
            allow_keyless = elim (req.allow_keyless) [ none ↦ allow | some v ↦ v ];
            anon_access = elim (req.anon_access) [
              | none ↦ to_proto_level (parse_access_level level)
              | some v ↦ settled v
            ];
          }))
        × (get_settings after ≡ (answer, after))
  update_settings-get_settings req allow level w keyless anon =
      let (db, same, allowed, stored) =
        updated_settings req.allow_keyless req.anon_access allow level w keyless anon in
      let got = get_settings_lem _ _ (record w { db = db }) allowed stored in
      let shown = rw (answered_level req.anon_access level) at got in rw (same, shown) (refl, shown)
