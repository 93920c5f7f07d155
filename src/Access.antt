-- ===== src/Access.antt =====
-- pkg/access/access.go: the access levels, their names, and their text encoding.
pub mod Codec
use soft_serve.Base.{
  zero, suc, Bool, true, false, Option, none, some, Text, str, text_eq, if◌then◌else◌,
}
use soft_serve.Base.Int.{ℤ, pos, negsuc, ltbℤ}

-- `type AccessLevel int`: every integer is a value, and four of them have names
abbrev pub AccessLevel : Type 0
AccessLevel = ℤ

abbrev pub no_access : AccessLevel
no_access = pos 0

abbrev pub read_only_access : AccessLevel
read_only_access = pos 1

abbrev pub read_write_access : AccessLevel
read_write_access = pos 2

abbrev pub admin_access : AccessLevel
admin_access = pos 3

-- AccessLevel.String
unfoldable pub string : AccessLevel → Text
string (pos zero) = str "no-access"
string (pos (suc zero)) = str "read-only"
string (pos (suc (suc zero))) = str "read-write"
string (pos (suc (suc (suc zero)))) = str "admin-access"
string _ = str "unknown"

-- ParseAccessLevel
unfoldable pub parse_access_level : Text → AccessLevel
unfolding text_eq
parse_access_level s =
    if text_eq s (str "no-access")
    then no_access
    else if text_eq s (str "read-only")
    then read_only_access
    else if text_eq s (str "read-write")
    then read_write_access
    else if text_eq s (str "admin-access")
    then admin_access
    else negsuc 0

pub data CodecError : Type 0 where
  invalid_access_level : CodecError

-- UnmarshalText: the new value of the target, and the error
unfoldable pub unmarshal_text : AccessLevel → Text → AccessLevel × Option CodecError
unmarshal_text a text =
    let l = parse_access_level text in
    if ltbℤ l (pos 0) then (a, some invalid_access_level) else (l, none)

-- MarshalText, which never fails
unfoldable pub marshal_text : AccessLevel → Text × Option CodecError
unfolding string
marshal_text a = (string a, none)
