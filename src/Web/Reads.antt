-- ===== src/Web/Reads.antt =====
-- The lookups of authenticate (pkg/web/auth.go), and the database.
use soft_serve.Base.{ℕ, Option, none, some, List, [], ◌∷◌, Text, Option-cases, inl, inr}
use soft_serve.Env.{Env}
use soft_serve.Store.Schema.{Db, Repo, PublicKey, User, AccessToken}
use soft_serve.Store.Exec.{Exec, ◌>>=◌}
use soft_serve.Store.Exec.Preserves.{
  Preserves-attempt, Preserves-or_else, Preserves-if, Preserves, preserves_rules,
}
use soft_serve.Store.Users.{
  find_user_by_username, find_user_by_access_token, list_public_keys_by_user_id, lower_valid,
  parse_keys,
}
use soft_serve.Store.Tokens.{get_access_token_by_token}
use soft_serve.Store.Settings.{get_allow_keyless_access}
use soft_serve.Backend.Users.{ProtoUser, user, user_by_access_token, with_keys, check_expiry}
use soft_serve.Backend.Settings.{allow_keyless}
use soft_serve.Web.Auth.{
  AuthError, Crypto, Header, authenticate, parse_auth_hdr, parse_username_password, by_token,
  by_parts, by_subject, by_basic, by_scheme,
}

ruleset reads_rules = (preserves_rules, Preserves-attempt, Preserves-or_else, Preserves-if)

module _ (P : Db → Type 0) where
  pub allow_keyless-Preserves : Preserves P allow_keyless
  unfolding allow_keyless get_allow_keyless_access
  allow_keyless-Preserves = search reads_rules

module _ (P : Db → Type 0) (env : Env) where
  parse_keys-Preserves : (ks : List PublicKey) → Preserves P (parse_keys env ks)
  unfolding parse_keys ◌>>=◌
  parse_keys-Preserves [] = search reads_rules
  parse_keys-Preserves (k ∷ ks) = elim (Option-cases (env.parse_key k.public_key)) [
    | inl bad ↦ rw bad (search reads_rules)
    | inr (pk, good) ↦ rw good (search (reads_rules, parse_keys-Preserves ks))
  ]

  list_keys-Preserves : (id : ℕ) → Preserves P (list_public_keys_by_user_id env id)
  unfolding list_public_keys_by_user_id
  list_keys-Preserves id = search (reads_rules, parse_keys-Preserves)

  with_keys-Preserves : (m : Exec User) → Preserves P m → Preserves P (with_keys env m)
  unfolding with_keys
  with_keys-Preserves m k = search (reads_rules, list_keys-Preserves) depth 8

  user-Preserves : (name : Text) → Preserves P (user env name)
  unfolding user find_user_by_username lower_valid
  user-Preserves name = search (reads_rules, with_keys-Preserves) depth 8

  check_expiry-Preserves : (now : ℕ) (t : AccessToken) → Preserves P (check_expiry env now t)
  unfolding check_expiry
  check_expiry-Preserves now t = search reads_rules

  token-Preserves : (now : ℕ) (token : Text) → Preserves P (user_by_access_token env now token)
  unfolding user_by_access_token find_user_by_access_token get_access_token_by_token
  token-Preserves now token =
      search (reads_rules, with_keys-Preserves, check_expiry-Preserves) depth 10

module _ (P : Db → Type 0) (env : Env) (crypto : Crypto) (now : ℕ) where
  by_token-Preserves :
      (e : AuthError) (token : Text) (u : Option ProtoUser)
      → Preserves P (by_token env crypto now e token u)
  by_token-Preserves e token none = search (reads_rules, token-Preserves)
  by_token-Preserves e token (some u) = search reads_rules

  by_parts-Preserves :
      (subject : Text) (parts : Option (Text × Text))
      → Preserves P (by_parts env crypto now subject parts)
  by_parts-Preserves subject none = search reads_rules
  by_parts-Preserves subject (some (name, id)) = search (reads_rules, user-Preserves)

  by_subject-Preserves : (x : Option Text × AuthError) → Preserves P (by_subject env crypto now x)
  by_subject-Preserves (none, e) = search reads_rules
  by_subject-Preserves (some subject, e) = by_parts-Preserves subject _

  by_basic-Preserves : (basic : Option (Text × Text)) → Preserves P (by_basic env crypto now basic)
  unfolding parse_username_password
  by_basic-Preserves none = search reads_rules
  by_basic-Preserves (some (username, password)) =
      search (reads_rules, by_token-Preserves, user-Preserves)

  by_scheme-Preserves :
      (repo : Option Repo) (basic parts : Option (Text × Text))
      → Preserves P (by_scheme env crypto now repo basic parts)
  by_scheme-Preserves repo basic none = search reads_rules
  by_scheme-Preserves repo basic (some (scheme, rest)) =
      search (reads_rules, by_token-Preserves, by_subject-Preserves, by_basic-Preserves)

  pub authenticate-Preserves :
      (repo : Option Repo) (header : Header) → Preserves P (authenticate env crypto now repo header)
  unfolding authenticate parse_auth_hdr
  authenticate-Preserves repo header = search (reads_rules, by_scheme-Preserves)
