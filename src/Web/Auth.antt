-- ===== src/Web/Auth.antt =====
-- pkg/web/auth.go: the user of an HTTP request.
use soft_serve.Base.{
  ℕ, Bool, Option, none, some, [], ◌∷◌, ◌++◌, Text, str, text_eq, ◌==◌, if◌then◌else◌,
}
use soft_serve.Env.{Env}
use soft_serve.Names.{to_lower}
use soft_serve.Store.Schema.{Repo}
use soft_serve.Store.Exec.{Exec, ◌>>=◌, pure, attempt}
use soft_serve.Backend.Users.{ProtoUser, user, user_by_access_token}
use soft_serve.Web.Decimal.{decimal}

-- ErrInvalidToken, ErrInvalidPassword, proto.ErrUserNotFound, and every other error
pub data AuthError : Type 0 where
  invalid_token invalid_password unknown_user other_error : AuthError

-- What the libraries do: bcrypt's comparison of a password and a hash, whether the server's key pair
-- can be read, and the subject of a token that the library for JSON web tokens accepts for an
-- audience.
pub record Crypto : Type 0 where
  pub verify_password : Text → Text → Bool
  pub key_pair : Bool
  pub parse_claims : Text → Text → Option Text

-- the Authorization header, and what the request's BasicAuth reads from it
pub record Header : Type 0 where
  pub text : Text
  pub basic : Option (Text × Text)

pub data Auth : Type 0 where
  granted : ProtoUser → Auth
  denied : AuthError → Auth

abbrev cons_first : ℕ → Option (Text × Text) → Option (Text × Text)
cons_first c none = none
cons_first c (some (s, t)) = some (c ∷ s, t)

-- strings.SplitN with the limit 2, if it returns two parts
unfoldable pub cut : ℕ → Text → Option (Text × Text)
cut sep [] = none
cut sep (c ∷ s) = let rest = cons_first c (cut sep s) in if c == sep then some ([], s) else rest

-- user.Password
abbrev pub password_of : ProtoUser → Text
password_of u = elim u.user.password [ none ↦ [] | some hash ↦ hash ]

abbrev pub granted_or : AuthError → Option ProtoUser → Auth
granted_or e none = denied e
granted_or e (some u) = granted u

module _ (env : Env) (crypto : Crypto) (now : ℕ) where
  abbrev pub accepts : Text → Option ProtoUser → Option ProtoUser
  accepts password none = none
  accepts password (some u) =
      if crypto.verify_password password (password_of u) then some u else none

  -- a user's token in place of the password
  abbrev pub by_token : AuthError → Text → Option ProtoUser → Exec Auth
  by_token e token (some u) = pure (granted u)
  by_token e token none = do u ← attempt (user_by_access_token env now token); pure (granted_or e u)

  -- parseUsernamePassword
  unfoldable pub parse_username_password : Text → Text → Exec Auth
  parse_username_password username password =
      if text_eq username []
      then pure (denied unknown_user)
      else if text_eq password []
      then by_token invalid_token username none
      else do
        u ← attempt (user env username)
        by_token invalid_password password (accepts password u)

  -- parseJWT: the subject, or an error
  unfoldable pub parse_jwt : Option Repo → Text → Option Text × AuthError
  parse_jwt none bearer = (none, other_error)
  parse_jwt (some r) bearer =
      if crypto.key_pair
      then (crypto.parse_claims r.name bearer, invalid_token)
      else (none, other_error)

  abbrev matches : Text → Option ProtoUser → Auth
  matches subject none = denied other_error
  matches subject (some u) =
      if text_eq (u.user.username ++ str "#" ++ decimal u.user.id) subject
      then granted u
      else denied other_error

  abbrev pub by_parts : Text → Option (Text × Text) → Exec Auth
  by_parts subject none = pure (denied other_error)
  by_parts subject (some (name, id)) = do u ← attempt (user env name); pure (matches subject u)

  -- the user that the subject of a web token names
  abbrev pub by_subject : Option Text × AuthError → Exec Auth
  by_subject (none, e) = pure (denied e)
  by_subject (some subject, e) = by_parts subject (cut 35 subject)

  abbrev pub by_basic : Option (Text × Text) → Exec Auth
  by_basic none = pure (denied other_error)
  by_basic (some (username, password)) = parse_username_password username password

  abbrev pub by_scheme : Option Repo → Option (Text × Text) → Option (Text × Text) → Exec Auth
  by_scheme repo basic none = pure (denied other_error)
  by_scheme repo basic (some (scheme, rest)) =
      if text_eq (to_lower env scheme) (str "token")
      then by_token other_error rest none
      else if text_eq (to_lower env scheme) (str "bearer")
      then by_subject (parse_jwt repo rest)
      else by_basic basic

  -- parseAuthHdr, for the repository of the request's context
  unfoldable pub parse_auth_hdr : Option Repo → Header → Exec Auth
  unfolding parse_username_password
  parse_auth_hdr repo header =
      if text_eq header.text []
      then pure (denied other_error)
      else by_scheme repo header.basic (cut 32 header.text)

  -- the errors that authenticate passes on
  abbrev pub authenticated : Auth → Option ProtoUser × Option AuthError
  authenticated (granted u) = (some u, none)
  authenticated (denied invalid_token) = (none, some invalid_token)
  authenticated (denied invalid_password) = (none, some invalid_password)
  authenticated (denied other) = (none, some unknown_user)

  -- authenticate
  unfoldable pub authenticate : Option Repo → Header → Exec (Option ProtoUser × Option AuthError)
  unfolding parse_auth_hdr
  authenticate repo header = do a ← parse_auth_hdr repo header; pure (authenticated a)
