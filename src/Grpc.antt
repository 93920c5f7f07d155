-- ===== src/Grpc.antt =====
-- pkg/grpc/server.go: the management server, whose methods call the backend. A method answers with a
-- message or with a status, and leaves the state of the server.
pub mod Bind
pub mod Repositories
pub mod Users
pub mod Access
pub mod Urls
pub mod Webhooks
use soft_serve.Base.{
  ℕ, zero, suc, Bool, Option, none, some, List, [], ◌∷◌, Text, str, text_eq, if◌then◌else◌,
}
use soft_serve.Base.Int.{ℤ, pos, negsuc}
use soft_serve.Access.{AccessLevel, no_access, read_only_access, read_write_access, admin_access}
use soft_serve.Env.{Env}
use soft_serve.Store.Schema.{Repo}
use soft_serve.Store.Exec.{Result, ok, err}
use soft_serve.System.{World, Sys}

-- the codes of the package google.golang.org/grpc/codes that the methods use
pub data Code : Type 0 where
  invalid_argument not_found internal : Code

pub data Reply (A : Type 0) : Type 0 where
  reply : A → Reply A
  status : Code → Reply A

abbrev pub Rpc : Type 0 → Type 0 → Type 0
Rpc C A = World C → Reply A × World C

abbrev pub answer : {A : Type 0} → Code → Result A → Reply A
answer code (ok a) = reply a
answer code (err e) = status code

module _ {C : Type 0} where
  abbrev continue : {A B : Type 0} → Reply A → (A → Rpc C B) → Rpc C B
  continue (reply a) f w = f a w
  continue (status e) f w = (status e, w)

  abbrev pub pure : {A : Type 0} → A → Rpc C A
  pure a w = (reply a, w)

  abbrev pub fail : {A : Type 0} → Code → Rpc C A
  fail e w = (status e, w)

  infixl 10 ◌>>=◌ ◌>>◌
  unfoldable pub ◌>>=◌ : {A B : Type 0} → Rpc C A → (A → Rpc C B) → Rpc C B
  ◌>>=◌ m f w = let (r, w') = m w in continue r f w'

  abbrev pub ◌>>◌ : {B : Type 0} → Rpc C (Unit {0}) → Rpc C B → Rpc C B
  m >> n = m >>= λ _. n

  -- a call of the backend, whose errors are answered with the code
  unfoldable pub calling : {A : Type 0} → Code → Sys C A → Rpc C A
  calling code m w = let (r, w') = m w in (answer code r, w')

  -- a field of the request that must not be empty
  unfoldable pub required : Text → Rpc C (Unit {0})
  required [] = fail invalid_argument
  required (c ∷ s) = pure tt

  -- an optional field of the request, and what is done with its value
  unfoldable pub given : {A : Type 0} → Option A → (A → Rpc C (Unit {0})) → Rpc C (Unit {0})
  given none f = pure tt
  given (some a) f = f a

-- the values of the enumeration AccessLevel of the protocol
abbrev pub ProtoLevel : Type 0
ProtoLevel = ℤ

-- toProtoAccessLevel
unfoldable pub to_proto_level : AccessLevel → ProtoLevel
to_proto_level (pos zero) = pos 1
to_proto_level (pos (suc zero)) = pos 2
to_proto_level (pos (suc (suc zero))) = pos 3
to_proto_level (pos (suc (suc (suc zero)))) = pos 4
to_proto_level _ = pos 0

-- toBackendAccessLevel
unfoldable pub to_backend_level : ProtoLevel → AccessLevel
to_backend_level (pos (suc zero)) = no_access
to_backend_level (pos (suc (suc zero))) = read_only_access
to_backend_level (pos (suc (suc (suc zero)))) = read_write_access
to_backend_level (pos (suc (suc (suc (suc zero))))) = admin_access
to_backend_level _ = no_access
